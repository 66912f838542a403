-- ===== src/Loader/Writer.antt =====
-- The buffered writer of the bootloader (bootloader/src/flash.c, `boot_writer_begin`, `writer_commit`,
-- `boot_writer_write`, `boot_writer_finish`, `boot_writer_abort`).
use hpm53m1_g6618motor.Base.{
  ℕ, zero, suc, ◌+◌, ◌-◌, ◌%◌, Bool, true, false, not, ◌&&◌, ◌||◌, List, ltb, ◌==◌, if◌then◌else◌,
  length, take, drop, same_bytes,
}
use hpm53m1_g6618motor.Flash.{FlashOps}
use hpm53m1_g6618motor.Flash.Ram.{window, overlay}
use hpm53m1_g6618motor.Boot.Header.{slot_size}

abbrev pub sector_bytes : ℕ
sector_bytes = 4096

-- The static variables of the writer; `buf` gives each byte of the sector's buffer.
pub record Writer : Type 0 where
  pub base : ℕ
  pub sector : ℕ
  pub buffered : ℕ
  pub has_sector : Bool
  pub buf : ℕ → ℕ

unfoldable pub writer_begin : ℕ → Writer → Writer
writer_begin base w = record w { base = base; sector = 0; buffered = 0; has_sector = false }

-- `boot_writer_abort`, and what `boot_writer_finish` resets.
unfoldable pub writer_abort : Writer → Writer
writer_abort w = record w { has_sector = false; buffered = 0 }

-- The `memcpy` of a chunk into the buffer at `off`.
unfoldable pub fill : ℕ → List ℕ → Writer → Writer
fill off chunk w = record w {
  buf = overlay w.buf off chunk;
  buffered = if ltb w.buffered (off + length chunk) then off + length chunk else w.buffered;
}

-- The bytes that a round takes: up to the end of the sector, or all that are left.
abbrev pub chunk_size : ℕ → ℕ → ℕ
chunk_size a left =
    let room = sector_bytes - a % sector_bytes in if ltb left room then left else room

module _ (ops : FlashOps) (view : ops.Dev → ℕ → ℕ → List ℕ) where
  open ops use {Dev}

  unfoldable pub writer_commit : Writer → Dev → Bool × Dev
  writer_commit w d =
      let bytes = window w.buf 0 w.buffered in
      let (erased, d₁) = ops.erase_sector d w.sector in
      if not w.has_sector || w.buffered == 0
      then (true, d)
      else if same_bytes (view d w.sector w.buffered) bytes
      then (true, d)
      else if not erased
      then (false, d₁)
      else ops.program d₁ w.sector bytes

  -- The change of the buffered sector at the start of a round.
  unfoldable pub switch_sector : ℕ → Writer → Dev → Bool × (Writer × Dev)
  switch_sector sector w d =
      let (ok, d₁) = writer_commit w d in
      if w.has_sector && w.sector == sector
      then (true, (w, d))
      else if not ok
      then (false, (w, d₁))
      else (true, (record w { sector = sector; buffered = 0; has_sector = true }, d₁))

  -- The commit of a full sector at the end of a round.
  unfoldable pub flush_full : ℕ → Writer → Dev → Bool × (Writer × Dev)
  flush_full end w d =
      let (ok, d₁) = writer_commit w d in
      if not (end == sector_bytes)
      then (true, (w, d))
      else if not ok
      then (false, (w, d₁))
      else (true, (writer_abort w, d₁))

  -- One round of the loop at the address `a` with the bytes left.
  unfoldable pub write_round : ℕ → List ℕ → Writer → Dev → Bool × (Writer × Dev)
  write_round a chunk w d =
      let off = a % sector_bytes in
      let (ok, (w₁, d₁)) = switch_sector (a - off) w d in
      if not ok then (false, (w₁, d₁)) else flush_full (off + length chunk) (fill off chunk w₁) d₁

  -- The loop, on fuel; each round takes at least one byte.
  unfoldable pub write_loop : ℕ → ℕ → List ℕ → Writer → Dev → Bool × (Writer × Dev)
  write_loop zero a src w d = (length src == 0, (w, d))
  write_loop (suc n) a src w d =
      let k = chunk_size a (length src) in
      let (ok, (w₁, d₁)) = write_round a (take k src) w d in
      let rest = write_loop n (a + k) (drop k src) w₁ d₁ in
      if length src == 0 then (true, (w, d)) else if not ok then (false, (w₁, d₁)) else rest

  unfoldable pub writer_write : ℕ → List ℕ → Writer → Dev → Bool × (Writer × Dev)
  writer_write address src w d =
      if length src == 0 || ltb address w.base || ltb (w.base + slot_size) (address + length src)
      then (false, (w, d))
      else write_loop (length src) address src w d

  unfoldable pub writer_finish : Writer → Dev → Bool × (Writer × Dev)
  writer_finish w d = let (ok, d₁) = writer_commit w d in (ok, (writer_abort w, d₁))
