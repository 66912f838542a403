-- ===== src/Loader/Tests/Upload.antt =====
-- An upgrade over USB on a flash in memory, and its theorems there.
use hpm53m1_g6618motor.Base.{
  ℕ, ◌≡◌, refl, ap, true, false, some, List, [], ◌∷◌, ◌++◌, arith, replicate,
}
use hpm53m1_g6618motor.Flash.Ram.{ram, ram-laws, window, overlay}
use hpm53m1_g6618motor.Boot.Header.{control_addr, slot_none}
use hpm53m1_g6618motor.Boot.Log.Change.{AllErased-erase, AllErased-IsCompact}
use hpm53m1_g6618motor.Boot.Control.Save.{IsControlLog}
use hpm53m1_g6618motor.Loader.{slot_valid, control_load_or_default, decide}
use hpm53m1_g6618motor.Boot.Header.{slot_meta_address}
use hpm53m1_g6618motor.Boot.Image.{
  image_record_begin, image_record_ready, image_record_append, begin_record, ready_record,
  seal_image, encode_image, image_crc,
}
use hpm53m1_g6618motor.Loader.{slot_mark_flashing, slot_commit, dfu_target}
use hpm53m1_g6618motor.Loader.Writer.{
  writer_begin, writer_abort, fill, writer_commit, switch_sector, flush_full, write_round,
  write_loop, writer_write, writer_finish,
}
use hpm53m1_g6618motor.Loader.Dfu.{
  ok, Session, session_abort, download_fail, download_start, download_block, after_start,
  download_rest, download, manifest_check, manifest, run_start,
}
use hpm53m1_g6618motor.Loader.Session.{IsSession}
use hpm53m1_g6618motor.Loader.Commit.{StartsNext}
use hpm53m1_g6618motor.Loader.Upgrade.{Protects, download-Protects, manifest-StartsNext}
use hpm53m1_g6618motor.Loader.Interrupt.{
  downloads, run_start-IsSession, interrupted_upgrade_starts_active,
}
use hpm53m1_g6618motor.Loader.Tests.{ram-ViewLaws, image_a, image_b, runs}

-- An upgrade of slot 1 over a flash with a valid slot 0: the file as one block, then the manifest.
abbrev pub one_image : ℕ → ℕ
one_image =
    (ram.erase_sector (overlay (overlay (λ a. 255) 0x80020000 image_a) 0x80020040 (1 ∷ 2 ∷ []))
      control_addr).1

abbrev file_b : List ℕ
file_b = image_b ++ replicate 28 255 ++ 3 ∷ 4 ∷ []

abbrev idle : Session
idle = record {
  active = false;
  slot = 0;
  base = 0;
  received = 0;
  expect_block = 0;
  seen_traffic = false;
  start_ms = 0;
  reset_at_ms = 0;
  writer = record { base = 0; sector = 0; buffered = 0; has_sector = false; buf = λ a. 0 };
}

unfoldable pub uploads : Unit {0}
unfolding runs writer_begin writer_abort fill writer_commit switch_sector flush_full write_round
    write_loop writer_write writer_finish session_abort download_fail download_start download_block
    after_start download_rest download manifest_check manifest run_start slot_mark_flashing
    slot_commit dfu_target slot_meta_address image_record_begin image_record_ready
    image_record_append begin_record ready_record seal_image encode_image image_crc downloads
uploads = tt

pub one_image-IsControlLog : IsControlLog ram one_image
one_image-IsControlLog = AllErased-IsCompact ram control_addr 16 256 one_image 0 (
    AllErased-erase ram ram-laws control_addr 16 refl (omega arith) (omega arith) _ refl 256 0
      (omega arith))

pub valid_one : slot_valid ram window one_image 0 ≡ true
unfolding uploads
valid_one = refl

target_b : dfu_target ram window one_image ≡ (1, true)
unfolding uploads
target_b = refl

none_pending : (control_load_or_default ram one_image).pending ≡ slot_none
unfolding uploads
none_pending = refl

interrupted_upgrade_starts_active_example :
    (decide ram window
      (downloads ram window
        ((0, file_b) ∷ [])
        (run_start (dfu_target ram window one_image).0 5 idle)
        one_image).1
      false).0
    ≡ some (control_load_or_default ram one_image).active
interrupted_upgrade_starts_active_example =
    interrupted_upgrade_starts_active ram window ram-laws ram-ViewLaws refl ((0, file_b) ∷ []) 5
      idle one_image (ap (λ t. t.1) target_b) none_pending

abbrev ready : Session
ready = run_start 1 5 idle

ready-IsSession : IsSession ready
ready-IsSession = run_start-IsSession 1 5 idle (omega arith)

abbrev received : Session × (ℕ → ℕ)
received = (download ram window 0 file_b ready one_image).1

download-Protects_example :
    IsSession received.0 × (received.0.slot ≡ 1) × Protects ram window 1 one_image received.1
unfolding run_start
download-Protects_example =
    download-Protects ram window ram-ViewLaws refl 0 file_b ready one_image ready-IsSession

received-IsControlLog : IsControlLog ram received.1
received-IsControlLog = download-Protects_example.2.2 one_image-IsControlLog

accepted : (manifest ram window 9 received.0 received.1).0 ≡ ok
unfolding uploads
accepted = refl

manifest-StartsNext_example :
    StartsNext ram window received.0.slot (manifest ram window 9 received.0 received.1).1.1
manifest-StartsNext_example =
    manifest-StartsNext ram window ram-laws ram-ViewLaws refl 9 received.0 received.1
      download-Protects_example.0 received-IsControlLog accepted
