-- ===== src/Boot/Control/Save.antt =====
-- What a boot control record survives: a save is read back by the next load, and a save that fails
-- while the log has room loses nothing.
use hpm53m1_g6618motor.Base.{
  ℕ, ◌+◌, ◌≡◌, refl, ◌∙◌, ◌⊎◌, inl, inr, true, false, none, some, List, [], ◌∷◌, ◌++◌, length,
  arith,
}
use hpm53m1_g6618motor.Flash.{FlashOps, FlashLaws}
use hpm53m1_g6618motor.Boot.Header.{control_addr}
use hpm53m1_g6618motor.Boot.Log.{next_erased, log_append}
use hpm53m1_g6618motor.Boot.Log.Entries.{
  entries, IsCompact, absorb_all, absorb_all-append, log_scan-entries,
}
use hpm53m1_g6618motor.Boot.Log.Append.{log_append_ok, log_append_keeps, log_append_lost}
use hpm53m1_g6618motor.Boot.Control.{
  ControlRecord, control_magic, encode_control, absorb_control, stamp_control, control_load,
  control_save,
}
use hpm53m1_g6618motor.Boot.Control.Codec.{
  InRange, IsSlots, absorb_control-stamp, encode_control-not_erased,
}

length-encode : (r : ControlRecord) → length (encode_control r) ≡ 16
unfolding encode_control
length-encode r = refl

module _ (ops : FlashOps) where
  -- The control log is compact: its records stand together at the start of the sector.
  abbrev pub IsControlLog : ops.Dev → Type 0
  IsControlLog d = IsCompact ops control_addr 16 256 d 0

  pub control_records : ops.Dev → List (List ℕ)
  control_records d = entries ops control_addr 16 256 d 0

  pub control_load-records :
      (d : ops.Dev) → control_load ops d ≡ absorb_all absorb_control (control_records d) none
  unfolding control_load control_records
  control_load-records d = log_scan-entries ops control_addr 16 absorb_control 256 d 0 none

module _ (ops : FlashOps) (laws : FlashLaws ops) (size : ops.sector_size ≡ 4096) (d : ops.Dev) where
  append_stamp :
      (s : ControlRecord)
      → s.magic ≡ control_magic
      → IsControlLog ops d
      → (log_append ops d control_addr (encode_control s)).0 ≡ true
      → let d' = (log_append ops d control_addr (encode_control s)).1 in
        IsControlLog ops d'
        × ((control_records ops d' ≡ control_records ops d ++ encode_control s ∷ [])
            ⊎ (control_records ops d' ≡ encode_control s ∷ []))
  unfolding control_records encode_control
  append_stamp s mark c ok =
      log_append_ok ops laws control_addr (encode_control s) 255 refl (omega arith) (omega arith)
        (omega arith) (rw size refl) d c (encode_control-not_erased s mark) ok

  append_keeps :
      (s : ControlRecord) (o : ℕ)
      → IsControlLog ops d
      → next_erased ops 256 d control_addr 16 0 ≡ some o
      → let d' = (log_append ops d control_addr (encode_control s)).1 in
        (control_records ops d' ≡ control_records ops d)
        ⊎ ((bytes : List ℕ) × (ops.read d' (control_addr + o) 16 ≡ some bytes)
            × (control_records ops d' ≡ control_records ops d ++ bytes ∷ []))
  unfolding control_records encode_control
  append_keeps s o c free =
      log_append_keeps ops laws control_addr (encode_control s) 255 refl (omega arith) (omega arith)
        (omega arith) (rw size refl) d o free c

  append_lost :
      (s : ControlRecord)
      → next_erased ops 256 d control_addr 16 0 ≡ none
      → (ops.erase_sector d control_addr).0 ≡ true
      → let d₁ = (ops.erase_sector d control_addr).1 in
        ops.program d₁ (control_addr + 0) (encode_control s) ≡ (false, d₁)
        → ((log_append ops d control_addr (encode_control s)).0 ≡ false)
          × (control_records ops (log_append ops d control_addr (encode_control s)).1 ≡ [])
  unfolding control_records encode_control
  append_lost s full erased fails =
      log_append_lost ops laws control_addr (encode_control s) 255 refl (omega arith) (omega arith)
        (omega arith) (rw size refl) d full erased fails

  -- For a record whose fields fit their C types, whose active slot is 0 or 1 and whose pending slot is
  -- 0, 1 or none: if the control log is compact and `boot_control_save` succeeds, the next
  -- `boot_control_load` returns exactly the record that was given, with the next sequence number, the
  -- magic and the checksum filled in, also where the full sector was erased first; and the log stays
  -- compact.
  pub control_load-control_save :
      (rec : ControlRecord)
      → InRange rec
      → IsSlots rec
      → IsControlLog ops d
      → (control_save ops d rec).0 ≡ true
      → let d' = (control_save ops d rec).1 in
        (control_load ops d' ≡ some (stamp_control (control_load ops d) rec)) × IsControlLog ops d'
  unfolding control_save control_records
  control_load-control_save rec range slots c ok =
      let s = stamp_control (control_load ops d) rec in
      let (kept, which) = append_stamp s (unfold stamp_control in refl) c ok in
      (
        control_load-records ops (control_save ops d rec).1 ∙ elim which [
          | inl more ↦
              rw
                (
                  more,
                  absorb_all-append absorb_control (control_records ops d) (encode_control s ∷ [])
                      none,
                  ← control_load-records ops d,
                )
                (absorb_control-stamp (control_load ops d) (control_load ops d) rec range slots
                  (inr refl))
          | inr alone ↦
              rw alone (absorb_control-stamp (control_load ops d) none rec range slots (inl refl))
        ],
        kept,
      )

  -- On a compact control log with an erased slot left, however `boot_control_save` ends (the write may
  -- fail at any byte), the next `boot_control_load` returns what it returned before, unless the slot now
  -- holds bytes that a scan takes for a newer record.
  pub control_save_keeps :
      (rec : ControlRecord) (o : ℕ)
      → IsControlLog ops d
      → next_erased ops 256 d control_addr 16 0 ≡ some o
      → let d' = (control_save ops d rec).1 in
        (control_load ops d' ≡ control_load ops d)
        ⊎ ((bytes : List ℕ) × (ops.read d' (control_addr + o) 16 ≡ some bytes)
            × (control_load ops d' ≡ absorb_control bytes (control_load ops d)))
  unfolding control_save
  control_save_keeps rec o c free =
      let s = stamp_control (control_load ops d) rec in
      elim (append_keeps s o c free) [
        | inl same ↦ inl (
            rw (
              control_load-records ops (control_save ops d rec).1,
              same,
              ← control_load-records ops d,
            ))
        | inr (bytes, r, more) ↦ inr (
          bytes,
          r,
          rw (
            control_load-records ops (control_save ops d rec).1,
            more,
            absorb_all-append absorb_control (control_records ops d) (bytes ∷ []) none,
            ← control_load-records ops d,
          ),
        )
      ]

  -- A save into a full control log first erases the sector. If the write that follows fails and leaves
  -- the sector as the erase left it, the save reports the failure and no record at all is left: the
  -- next `boot_control_load` finds nothing.
  pub control_save_full_loses :
      (rec : ControlRecord)
      → next_erased ops 256 d control_addr 16 0 ≡ none
      → (ops.erase_sector d control_addr).0 ≡ true
      → let d₁ = (ops.erase_sector d control_addr).1 in
        let s = stamp_control (control_load ops d) rec in
        ops.program d₁ (control_addr + 0) (encode_control s) ≡ (false, d₁)
        → ((control_save ops d rec).0 ≡ false)
          × (control_load ops (control_save ops d rec).1 ≡ none)
  unfolding control_save
  control_save_full_loses rec full erased fails =
      let w = append_lost (stamp_control (control_load ops d) rec) full erased fails in
      (w.0, control_load-records ops (control_save ops d rec).1 ∙ rw w.1)
