-- ===== src/Loader/Tests.antt =====
-- Starts of the bootloader on a flash in memory, and its theorems there.
pub mod Upload
use hpm53m1_g6618motor.Base.{
  ℕ, ◌+◌, ◌-◌, ◌≤◌, ◌≡◌, ◌↔◌, refl, ap, true, false, some, none, Option, List, [], ◌∷◌, ◌++◌, arith,
  replicate, same_bytes,
}
use hpm53m1_g6618motor.Crc.{boot_crc32}
use hpm53m1_g6618motor.Flash.Nor.{nor, nor-laws, window-nor_erase, window-nor_program}
use hpm53m1_g6618motor.Flash.Ram.{
  ram, ram-laws, window, overlay, window-overlay-Apart, window-erase-Apart,
}
use hpm53m1_g6618motor.Boot.Header.{
  control_addr, slot_none, slot_address, image_header_valid, header_bytes,
}
use hpm53m1_g6618motor.Boot.Log.{
  record_is_erased, next_erased, log_next_slot, log_verify, write_record, log_append, log_scan,
}
use hpm53m1_g6618motor.Boot.Log.Success.{IsReliable}
use hpm53m1_g6618motor.Boot.Log.Change.{AllErased-erase, AllErased-IsCompact}
use hpm53m1_g6618motor.Boot.Control.{
  ControlRecord, control_crc, encode_control, decode_control, control_record_valid, seq_newer,
  prefer_newer, absorb_control, next_seq, stamp_control, control_defaults, control_load,
  control_save,
}
use hpm53m1_g6618motor.Boot.Control.Save.{IsControlLog, control_load-control_save}
use hpm53m1_g6618motor.Loader.{
  decode_header, header_at, slot_valid, control_load_or_default, clear_pending, decide_active,
  decide,
}
use hpm53m1_g6618motor.Boot.Header.{slot_meta_address}
use hpm53m1_g6618motor.Boot.Image.{
  image_record_begin, image_record_ready, image_record_append, begin_record, ready_record,
  seal_image, encode_image, image_crc,
}
use hpm53m1_g6618motor.Loader.{slot_mark_flashing, slot_commit, dfu_target}
use hpm53m1_g6618motor.Loader.Writer.{
  writer_begin, writer_abort, fill, writer_commit, switch_sector, flush_full, write_round,
  write_loop, writer_write, writer_finish,
}
use hpm53m1_g6618motor.Loader.Dfu.{
  ok, Session, session_abort, download_fail, download_start, download_block, after_start,
  download_rest, download, manifest_check, manifest, run_start,
}
use hpm53m1_g6618motor.Loader.Session.{IsSession}
use hpm53m1_g6618motor.Loader.Commit.{StartsNext}
use hpm53m1_g6618motor.Loader.Upgrade.{Protects, download-Protects, manifest-StartsNext}
use hpm53m1_g6618motor.Loader.Interrupt.{
  downloads, run_start-IsSession, interrupted_upgrade_starts_active,
}
use hpm53m1_g6618motor.Loader.Keep.{ViewLaws}
use hpm53m1_g6618motor.Loader.Decide.{decide-Chooses}
use hpm53m1_g6618motor.Loader.Rollback.{OnTrial, boots, after_boots, boots_roll_back}

pub ram-ViewLaws : ViewLaws ram window
ram-ViewLaws = record {
  view_program_apart = λ d a n b bs p. window-overlay-Apart d a b n bs p;
  view_erase_apart = λ d a n s p. window-erase-Apart d a n s p;
  view_read = λ d a n h. refl;
}

-- A flash that keeps the preconditions of its calls, and only then succeeds.
nor-ViewLaws : ViewLaws nor window
nor-ViewLaws = record {
  view_program_apart = λ d a n b bs p. window-nor_program d a n b bs p;
  view_erase_apart = λ d a n s p. window-nor_erase d a n s p;
  view_read = λ d a n h. refl;
}

nor-IsReliable : IsReliable nor
nor-IsReliable = record {
  erases = λ d s a low high. ground arith;
  programs = λ d a bs filled words low high fits. ground arith;
}

-- An image of two bytes in each slot, with its header.
abbrev pub image_a : List ℕ
image_a =
    72 ∷ 80 ∷ 77 ∷ 10 ∷ 71 ∷ 77 ∷ 73 ∷ 71 ∷ 1 ∷ 0 ∷ 0 ∷ 0 ∷ 3 ∷ 0 ∷ 0 ∷ 0 ∷ 2 ∷ 0 ∷ 0 ∷ 0 ∷ 146 ∷ 66
    ∷ 204 ∷ 182 ∷ 0 ∷ 0 ∷ 2 ∷ 128 ∷ 64 ∷ 0 ∷ 0 ∷ 0 ∷ 107 ∷ 2 ∷ 184 ∷ 119 ∷ []

abbrev pub image_b : List ℕ
image_b =
    72 ∷ 80 ∷ 77 ∷ 10 ∷ 71 ∷ 77 ∷ 73 ∷ 71 ∷ 1 ∷ 0 ∷ 1 ∷ 0 ∷ 4 ∷ 0 ∷ 0 ∷ 0 ∷ 2 ∷ 0 ∷ 0 ∷ 0 ∷ 37 ∷ 133
    ∷ 153 ∷ 109 ∷ 0 ∷ 240 ∷ 8 ∷ 128 ∷ 64 ∷ 0 ∷ 0 ∷ 0 ∷ 247 ∷ 194 ∷ 186 ∷ 5 ∷ []

abbrev images : ℕ → ℕ
images =
    overlay
      (overlay (overlay (overlay (λ a. 0) 0x80020000 image_a) 0x80020040 (1 ∷ 2 ∷ [])) 0x8008F000
        image_b)
      0x8008F040 (3 ∷ 4 ∷ [])

abbrev blank : ℕ → ℕ
blank = (nor.erase_sector images control_addr).1

blank-IsControlLog : IsControlLog nor blank
blank-IsControlLog = AllErased-IsCompact nor control_addr 16 256 blank 0 (
    AllErased-erase nor nor-laws control_addr 16 refl (omega arith) (omega arith) images refl 256 0
      (omega arith))

-- Slot 0 is active, and slot 1 waits for its first start.
abbrev upgraded : ControlRecord
upgraded = record {
  magic = 0;
  seq = 0;
  active = 0;
  pending = 1;
  attempts = 0;
  confirmed = 0;
  reserved = 0;
  crc32 = 0;
}

unfoldable pub runs : Unit {0}
unfolding boot_crc32 window overlay same_bytes record_is_erased next_erased log_next_slot log_verify
    write_record log_append log_scan control_crc encode_control decode_control control_record_valid
    seq_newer prefer_newer absorb_control next_seq stamp_control control_defaults control_load
    control_save decode_header header_at slot_valid control_load_or_default clear_pending
    decide_active decide slot_address image_header_valid header_bytes
runs = tt

abbrev saved : ℕ → ℕ
saved = (control_save nor blank upgraded).1

valid_a : slot_valid nor window saved 0 ≡ true
unfolding runs
valid_a = refl

valid_b : slot_valid nor window saved 1 ≡ true
unfolding runs
valid_b = refl

save_upgraded : (control_save nor blank upgraded).0 ≡ true
unfolding runs
save_upgraded = refl

first_start : (decide nor window saved false).0 ≡ some 1
unfolding runs
first_start = refl

decide-Chooses_example :
    ((s : ℕ)
      → (decide nor window saved false).0 ≡ some s
      → (s ≤ 1) × (slot_valid nor window (decide nor window saved false).1 s ≡ true))
    × (((decide nor window saved false).0 ≡ none)
        ↔ ((slot_valid nor window saved 0 ≡ false) × (slot_valid nor window saved 1 ≡ false)))
decide-Chooses_example = decide-Chooses nor window nor-laws nor-ViewLaws refl saved

saved-IsControlLog : IsControlLog nor saved
saved-IsControlLog =
    (control_load-control_save nor nor-laws refl blank upgraded (omega arith) (ground arith)
      blank-IsControlLog save_upgraded).1

saved_fields :
    ((control_load_or_default nor saved).active ≡ 0)
    × ((control_load_or_default nor saved).pending ≡ 1)
    × ((control_load_or_default nor saved).attempts ≡ 0)
unfolding runs
saved_fields = (refl, refl, refl)

saved-OnTrial : OnTrial nor window 0 1 0 saved
saved-OnTrial = record {
  log = saved-IsControlLog;
  active_slot = saved_fields.0;
  pending_slot = saved_fields.1;
  tried = saved_fields.2;
  two_slots = omega arith;
  pending_valid = valid_b;
  active_valid = valid_a;
}

boots_roll_back_example :
    let d' = after_boots nor window 4 saved in
    (boots nor window 4 saved ≡ some 1 ∷ some 1 ∷ some 1 ∷ some 0 ∷ [])
    × IsControlLog nor d'
    × ((control_load_or_default nor d').active ≡ 0)
    × ((control_load_or_default nor d').pending ≡ slot_none)
boots_roll_back_example =
    boots_roll_back nor window nor-laws nor-ViewLaws nor-IsReliable refl 0 1 3 0 saved refl
      saved-OnTrial
