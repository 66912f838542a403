-- ===== src/Loader/Keep.antt =====
-- What a log append of the bootloader leaves alone in the memory map: everything outside the log's own
-- sector, and so both slots.
use hpm53m1_g6618motor.Base.{
  ℕ, ◌+◌, ◌*◌, ◌≤◌, ◌≡◌, refl, ◌∙◌, ap, inl, inr, some, List, length, arith, Bool-cases,
  Option-cases,
}
use hpm53m1_g6618motor.Flash.{FlashOps, Apart}
use hpm53m1_g6618motor.Boot.Header.{flash_base, flash_size, slot_address, header_size, control_addr}
use hpm53m1_g6618motor.Boot.Log.{rounds_of, next_erased, log_append, write_record}
use hpm53m1_g6618motor.Boot.Log.Entries.{next_erased-end}
use hpm53m1_g6618motor.Boot.Log.Append.{log_append-room, log_append-full, write_record-program}
use hpm53m1_g6618motor.Boot.Control.{
  ControlRecord, encode_control, control_save, stamp_control, control_load,
}
use hpm53m1_g6618motor.Loader.{header_at, slot_valid}

-- The documented behaviour of the memory map: a call of the backend changes what is read in its own
-- range only.
pub record ViewLaws (ops : FlashOps) (view : ops.Dev → ℕ → ℕ → List ℕ) : Type 0 where
  pub view_program_apart :
      (d : ops.Dev) (a n b : ℕ) (bs : List ℕ)
      → Apart a n b (length bs)
      → view (ops.program d b bs).1 a n ≡ view d a n
  pub view_erase_apart :
      (d : ops.Dev) (a n s : ℕ)
      → Apart a n s ops.sector_size
      → view (ops.erase_sector d s).1 a n ≡ view d a n
  -- A read of the backend copies out of the map.
  pub view_read :
      (d : ops.Dev) (a n : ℕ) → a + n ≤ flash_base + flash_size → ops.read d a n ≡ some (view d a n)

module _ (ops : FlashOps) (view : ops.Dev → ℕ → ℕ → List ℕ) where
  -- The two states read the same outside the sector.
  abbrev pub SameOutside : ℕ → ops.Dev → ops.Dev → Type 0
  SameOutside sector d d' = (a n : ℕ) → Apart a n sector 4096 → view d' a n ≡ view d a n

module _ (ops : FlashOps) (view : ops.Dev → ℕ → ℕ → List ℕ) (laws : ViewLaws ops view)
    (size : ops.sector_size ≡ 4096) where
  write_record-SameOutside :
      (d : ops.Dev) (sector off : ℕ) (rec : List ℕ)
      → off + length rec ≤ 4096
      → SameOutside ops view sector d (write_record ops d (sector + off) rec).1
  write_record-SameOutside d sector off rec h a n p =
      rw (write_record-program ops d (sector + off) rec)
        (laws.view_program_apart d a n (sector + off) rec (ground (arith, p)))

  erase-SameOutside :
      (d : ops.Dev) (sector : ℕ) → SameOutside ops view sector d (ops.erase_sector d sector).1
  erase-SameOutside d sector a n p = laws.view_erase_apart d a n sector (rw size p)

  pub log_append-SameOutside :
      (d : ops.Dev) (sector : ℕ) (rec : List ℕ) (m : ℕ)
      → rounds_of (length rec) ≡ m
      → m * length rec ≤ 4096
      → length rec ≤ 4096
      → SameOutside ops view sector d (log_append ops d sector rec).1
  log_append-SameOutside d sector rec m rounds fits small =
      elim (Option-cases (next_erased ops (rounds_of (length rec)) d sector (length rec) 0)) [
        | inl full ↦
            let d₁ = (ops.erase_sector d sector).1 in
            let e = log_append-full ops d sector rec full in
            elim (Bool-cases (ops.erase_sector d sector).0) [
              | inl erased ↦ λ a n p.
                  rw (e, erased)
                    (write_record-SameOutside d₁ sector 0 rec (omega arith) a n p
                      ∙ erase-SameOutside d sector a n p)
              | inr failed ↦ λ a n p. rw (e, failed) (erase-SameOutside d sector a n p)
            ]
        | inr (o, h) ↦ rw (log_append-room ops d sector rec o h) (
            write_record-SameOutside d sector o rec (
              omega (
                arith,
                next_erased-end ops sector (length rec) (rounds_of (length rec)) d 0 o h,
                ap (λ (t : ℕ). t * length rec) rounds,
              )))
      ]

  length-encode_control : (r : ControlRecord) → length (encode_control r) ≡ 16
  unfolding encode_control
  length-encode_control r = refl

  pub control_save-SameOutside :
      (d : ops.Dev) (r : ControlRecord)
      → SameOutside ops view control_addr d (control_save ops d r).1
  unfolding control_save
  control_save-SameOutside d r =
      let s = encode_control (stamp_control (control_load ops d) r) in
      let e = length-encode_control (stamp_control (control_load ops d) r) in
      log_append-SameOutside d control_addr s 256 (ap rounds_of e) (omega (arith, e))
        (omega (arith, e))

  slot_address-ge : (slot_id : ℕ) → control_addr + 4096 ≤ slot_address slot_id
  unfolding slot_address
  slot_address-ge slot_id = ground arith

  -- A slot is valid as before where only a sector below the slots was written.
  pub slot_valid-SameOutside :
      (sector : ℕ) (d d' : ops.Dev) (slot_id : ℕ)
      → sector ≤ control_addr
      → SameOutside ops view sector d d'
      → slot_valid ops view d' slot_id ≡ slot_valid ops view d slot_id
  unfolding slot_valid header_at
  slot_valid-SameOutside sector d d' slot_id below same =
      let h = slot_address-ge slot_id in
      let base = slot_address slot_id in
      let size_at = (header_at ops view d base).image_size in
      rw
        (
          same base header_size (inr (omega (arith, h))),
          same (base + header_size) size_at (inr (omega (arith, h))),
        )
        refl

  pub slot_valid-control_save :
      (d : ops.Dev) (r : ControlRecord) (slot_id : ℕ)
      → slot_valid ops view (control_save ops d r).1 slot_id ≡ slot_valid ops view d slot_id
  slot_valid-control_save d r slot_id =
      slot_valid-SameOutside control_addr d (control_save ops d r).1 slot_id (omega arith)
        (control_save-SameOutside d r)
