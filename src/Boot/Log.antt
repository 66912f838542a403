-- ===== src/Boot/Log.antt =====
-- The append-only log of fixed-size records in one 4 KB sector (boot_meta.c, `record_is_erased`,
-- `log_next_slot`, `log_append`, and the loop that both `_load` functions run over the records).
pub mod Entries
pub mod Change
pub mod Append
pub mod Scan
pub mod Success
use hpm53m1_g6618motor.Base.{
  ℕ, zero, suc, ◌+◌, ◌/◌, Bool, true, false, Option, none, some, List, length, ltb, if◌then◌else◌,
  same_bytes, all_ff,
}
use hpm53m1_g6618motor.Flash.{FlashOps}
use hpm53m1_g6618motor.Boot.Header.{meta_sector_size}

-- The rounds of `for (off = 0; off + rec_size <= BOOT_META_SECTOR_SIZE; off += rec_size)`.
abbrev pub rounds_of : ℕ → ℕ
rounds_of rec_size = meta_sector_size / rec_size

module _ (ops : FlashOps) where
  open ops use {Dev, read, erase_sector, program}

  -- The table of calls is complete, so the NULL tests of the source pass. `buf` holds 32 bytes.
  unfoldable pub record_is_erased : Dev → ℕ → ℕ → Bool
  record_is_erased d addr size =
      if ltb 32 size
      then false
      else elim (read d addr size) [ none ↦ false | some buf ↦ all_ff buf ]

  -- The loop of `log_next_slot`, with the rounds left and the offset.
  unfoldable pub next_erased : ℕ → Dev → ℕ → ℕ → ℕ → Option ℕ
  next_erased zero d sector rec_size off = none
  next_erased (suc n) d sector rec_size off =
      if record_is_erased d (sector + off) rec_size
      then some off
      else next_erased n d sector rec_size (off + rec_size)

  -- `none` is the result -1.
  unfoldable pub log_next_slot : Dev → ℕ → ℕ → Option ℕ × Dev
  log_next_slot d sector rec_size = elim (next_erased (rounds_of rec_size) d sector rec_size 0) [
    | some off ↦ (some off, d)
    | none ↦ let (erased, d') = erase_sector d sector in if erased then (some 0, d') else (none, d')
  ]

  -- The read-back of `log_append`.
  unfoldable pub log_verify : Dev → ℕ → List ℕ → Bool
  log_verify d addr rec = elim (read d addr (length rec)) [
    | none ↦ false
    | some verify ↦ same_bytes verify rec
  ]

  -- Program one record and read it back; `true` is the result 0.
  unfoldable pub write_record : Dev → ℕ → List ℕ → Bool × Dev
  write_record d addr rec =
      let (programmed, d') = program d addr rec in
      if programmed then (log_verify d' addr rec, d') else (false, d')

  unfoldable pub log_append : Dev → ℕ → List ℕ → Bool × Dev
  log_append d sector rec =
      let (slot, d') = log_next_slot d sector (length rec) in
      elim slot [ none ↦ (false, d') | some off ↦ write_record d' (sector + off) rec ]

  -- The loop of a `_load` function: stop at an erased or unreadable record, else hand its bytes to
  -- the body `absorb` with the latest record found before.
  unfoldable pub log_scan {ℓ} :
      {R : Type ℓ} → (List ℕ → Option R → Option R) → ℕ → Dev → ℕ → ℕ → ℕ → Option R → Option R
  log_scan absorb zero d sector rec_size off latest = latest
  log_scan absorb (suc n) d sector rec_size off latest =
      if record_is_erased d (sector + off) rec_size
      then latest
      else elim (read d (sector + off) rec_size) [
        | none ↦ latest
        | some bytes ↦ log_scan absorb n d sector rec_size (off + rec_size) (absorb bytes latest)
      ]
