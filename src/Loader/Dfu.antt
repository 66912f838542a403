-- ===== src/Loader/Dfu.antt =====
-- The download session of the bootloader (bootloader/src/dfu.c, the callbacks of the USB stack, and
-- the checks of the idle loop of `dfu_run`).
use hpm53m1_g6618motor.Base.{
  ℕ, ◌+◌, ◌-◌, ◌%◌, Bool, true, false, not, ◌&&◌, ◌||◌, List, ltb, ◌==◌, if◌then◌else◌, length,
  take,
}
use hpm53m1_g6618motor.Crc.{boot_crc32}
use hpm53m1_g6618motor.Flash.{FlashOps}
use hpm53m1_g6618motor.Boot.Header.{image_header_valid, slot_address, slot_size, header_size}
use hpm53m1_g6618motor.Loader.{decode_header, header_at, slot_mark_flashing, slot_commit}
use hpm53m1_g6618motor.Loader.Writer.{
  Writer, writer_begin, writer_abort, writer_write, writer_finish,
}

-- The status handed to `tud_dfu_finish_flashing`.
pub data Status : Type 0 where
  ok err_firmware err_write err_address err_verify err_not_done : Status

-- `dfu_session_t` with the static variables beside it and those of the writer.
pub record Session : Type 0 where
  pub active : Bool
  pub slot : ℕ
  pub base : ℕ
  pub received : ℕ
  pub expect_block : ℕ
  pub seen_traffic : Bool
  pub start_ms : ℕ
  pub reset_at_ms : ℕ
  pub writer : Writer

-- `session_abort`
unfoldable pub session_abort : Session → Session
session_abort s = record s { writer = writer_abort s.writer; active = false }

module _ (ops : FlashOps) (view : ops.Dev → ℕ → ℕ → List ℕ) where
  open ops use {Dev}

  abbrev pub Answer : Type 0
  Answer = Status × (Session × ops.Dev)

  -- `download_fail`
  unfoldable pub download_fail : Status → Session → Dev → Answer
  download_fail status s d = (status, (session_abort s, d))

  -- The start of a session on block 0.
  unfoldable pub download_start : ℕ → List ℕ → Session → Dev → Answer
  download_start block_num bytes s d =
      let hdr = decode_header (take header_size bytes) in
      let base = slot_address s.slot in
      let begun = record s {
        base = base;
        received = 0;
        expect_block = 0;
        writer = writer_begin base s.writer;
      } in
      let (marked, d₁) = slot_mark_flashing ops d s.slot hdr in
      if not (block_num == 0) || ltb (length bytes) header_size
      then download_fail err_firmware s d
      else if not (image_header_valid hdr s.slot)
      then download_fail err_firmware s d
      else if not marked
      then download_fail err_write begun d₁
      else (ok, (record begun { active = true }, d₁))

  -- The block itself, in an active session.
  unfoldable pub download_block : ℕ → List ℕ → Session → Dev → Answer
  download_block block_num bytes s d =
      let (written, (w, d₁)) = writer_write ops view (s.base + s.received) bytes s.writer d in
      let s₁ = record s { writer = w } in
      if not (block_num == s.expect_block)
      then download_fail err_write s d
      else if ltb slot_size (s.received + length bytes)
      then download_fail err_address s d
      else if not written
      then download_fail err_write s₁ d₁
      else (
        ok,
        (record s₁ { received = s.received + length bytes; expect_block = s.expect_block + 1 }, d₁),
      )

  -- The block that follows the answer of the start.
  unfoldable pub after_start : ℕ → List ℕ → Answer → Answer
  after_start block_num bytes (status, (s, d)) = elim status [
    | ok ↦ download_block block_num bytes s d
    | other ↦ (other, (s, d))
  ]

  -- The rest of the callback, on the session left once block 0 has ended an old one.
  unfoldable pub download_rest : ℕ → List ℕ → Session → Dev → Answer
  download_rest block_num bytes s d =
      if s.active
      then download_block block_num bytes s d
      else after_start block_num bytes (download_start block_num bytes s d)

  -- `tud_dfu_download_cb`
  unfoldable pub download : ℕ → List ℕ → Session → Dev → Answer
  download block_num bytes s d =
      let s₀ = record s { seen_traffic = true } in
      download_rest block_num bytes (if s.active && block_num == 0 then session_abort s₀ else s₀) d

  -- The checks of the manifest over the flash, and the commit.
  unfoldable pub manifest_check : ℕ → Session → Dev → Answer
  manifest_check now s d =
      let hdr = header_at ops view d s.base in
      let crc = boot_crc32 (view d (s.base + header_size) hdr.image_size) in
      let (committed, d₁) = slot_commit ops d s.slot hdr crc in
      if not (image_header_valid hdr s.slot) || not (s.received == header_size + hdr.image_size)
      then download_fail err_firmware s d
      else if not (crc == hdr.image_crc32)
      then download_fail err_verify s d
      else if not committed
      then download_fail err_write s d₁
      else (ok, (record s { active = false; reset_at_ms = (now + 1200) % 4294967296 }, d₁))

  -- `tud_dfu_manifest_cb` at the time `now`.
  unfoldable pub manifest : ℕ → Session → Dev → Answer
  manifest now s d =
      let s₀ = record s { seen_traffic = true } in
      let (finished, (w, d₁)) = writer_finish ops view s.writer d in
      let s₁ = record s₀ { writer = w } in
      if not s.active
      then (err_not_done, (s₀, d))
      else if not finished
      then download_fail err_write s₁ d₁
      else manifest_check now s₁ d₁

-- The session that `dfu_run` starts with.
unfoldable pub run_start : ℕ → ℕ → Session → Session
run_start target_slot now s = record s {
  active = false;
  slot = target_slot;
  seen_traffic = false;
  reset_at_ms = 0;
  start_ms = now;
}

-- Whether a round of the loop of `dfu_run` resets the machine.
unfoldable pub run_resets : Bool → ℕ → Session → Bool
run_resets allow_timeout now s =
    (not (s.reset_at_ms == 0) && ltb ((now + 4294967296 - s.reset_at_ms) % 4294967296) 2147483648)
    || (allow_timeout
        && not s.seen_traffic
        && ltb 60000 ((now + 4294967296 - s.start_ms) % 4294967296))
