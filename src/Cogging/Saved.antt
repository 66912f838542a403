-- ===== src/Cogging/Saved.antt =====
-- Tables that were saved load again (app_cogging_store.c).
use hpm53m1_g6618motor.Base.{
  ℕ, ◌%◌, ◌≤◌, ◌≡◌, refl, sym, ap, ◌∙◌, Bool, true, not, ◌&&◌, ◌||◌, none, some, List, length,
  arith, Bool-cases, Option-cases, inl, inr, IsBytes,
}
use hpm53m1_g6618motor.Flash.{FlashOps, FlashLaws}
use hpm53m1_g6618motor.Param.Init.{Geometry}
use hpm53m1_g6618motor.Param.Place.{ReadsParts}
use hpm53m1_g6618motor.Cogging.{
  Cogging, tables_size, record_size, store_record, cogging_sector, load_tables, program_chunks,
  verified, write_record, cogging_save, cogging_load, set_tables, rotor_valid, output_valid,
}
use hpm53m1_g6618motor.Cogging.Record.{
  length-store_record, store_record-accepted, store_record-IsBytes,
}
use hpm53m1_g6618motor.Cogging.Chunks.{Blank, program_chunks-reads}

module _ (ops : FlashOps) (laws : FlashLaws ops) (parts : ReadsParts ops) where
  -- What a successful write of a record went through.
  record Wrote (address : ℕ) (tables : List ℕ) (d : ops.Dev) : Type 0 where
    erased : (ops.erase_sector d address).0 ≡ true
    programmed :
        (program_chunks ops 7 address (store_record tables) (ops.erase_sector d address).1).0 ≡ true
    after :
        (write_record ops address tables d).1
        ≡ (program_chunks ops 7 address (store_record tables) (ops.erase_sector d address).1).1
    content : List ℕ
    read_back :
        ops.read
          (program_chunks ops 7 address (store_record tables) (ops.erase_sector d address).1).1
          address
          record_size
        ≡ some content

  unread : verified ops none ≡ true → ⊥
  unfolding verified
  unread h = ground arith

  write_record-Wrote :
      (address : ℕ) (tables : List ℕ) (d : ops.Dev)
      → (write_record ops address tables d).0 ≡ true
      → Wrote address tables d
  unfolding write_record
  write_record-Wrote address tables d ok =
      let d₁ = (ops.erase_sector d address).1 in
      let m = program_chunks ops 7 address (store_record tables) d₁ in
      elim (Bool-cases (ops.erase_sector d address).0) [
        | inr e ↦ absurd (cc (rw e at ok))
        | inl e ↦ elim (Bool-cases m.0) [
          | inr f ↦ absurd (cc (rw (e, f) at ok))
          | inl f ↦ elim (Option-cases (ops.read m.1 address record_size)) [
            | inl none' ↦ absurd (unread (rw (e, f, none') at ok))
            | inr (bs, r) ↦ record {
              erased = e;
              programmed = f;
              after = rw (e, f) refl;
              content = bs;
              read_back = r;
            }
          ]
        ]
      ]

  cogging_save-writes :
      (g : Geometry) (foc_off : Bool) (c : Cogging) (d : ops.Dev) (address : ℕ)
      → cogging_sector g ≡ some address
      → (cogging_save ops g foc_off c d).0 ≡ true
      → cogging_save ops g foc_off c d ≡ write_record ops address c.tables d
  unfolding cogging_save
  cogging_save-writes g foc_off c d address at ok =
      let refused = (not (rotor_valid c.tables) && not (output_valid c.tables)) || not foc_off in
      elim (Bool-cases refused) [
        | inl e ↦ absurd (cc (rw e at ok))
        | inr e ↦ rw (e, at, cogging_save) refl
      ]

  load_tables-record :
      (g : Geometry) (tables : List ℕ) (d : ops.Dev) (address : ℕ)
      → cogging_sector g ≡ some address
      → length tables ≡ tables_size
      → ops.read d address record_size ≡ some (store_record tables)
      → load_tables ops g d ≡ some tables
  unfolding load_tables
  load_tables-record g tables d address at len read =
      let (fields, crc, content) = store_record-accepted tables len in
      rw (at, read, fields, crc, content, load_tables) refl

  -- In a sector of the flash whose reads give the parts of a whole and which holds the record: tables
  -- that were saved with success are the ones that a load sets.
  pub cogging_load-cogging_save :
      (g : Geometry) (foc_off : Bool) (c c' : Cogging) (d : ops.Dev) (address : ℕ)
      → cogging_sector g ≡ some address
      → address % ops.sector_size ≡ 0
      → record_size ≤ ops.sector_size
      → length c.tables ≡ tables_size
      → IsBytes c.tables
      → (cogging_save ops g foc_off c d).0 ≡ true
      → cogging_load ops g (cogging_save ops g foc_off c d).1 c' ≡ (true, set_tables c.tables c')
  unfolding cogging_load
  cogging_load-cogging_save g foc_off c c' d address at aligned fits len bytes ok =
      let save = cogging_save-writes g foc_off c d address at ok in
      let w = write_record-Wrote address c.tables d (ap (λ m. m.0) (sym save) ∙ ok) in
      let record' = store_record c.tables in
      let d₁ = (ops.erase_sector d address).1 in
      let d₂ = (program_chunks ops 7 address record' d₁).1 in
      let size = length-store_record c.tables len in
      let blank : Blank ops laws parts d₁ address (length record') = λ b n some_bytes lo hi.
        laws.read_erased d address b n w.erased aligned some_bytes lo
          (omega (arith, hi, size, fits)) in
      let same =
        program_chunks-reads ops laws parts 7 address record' d₁ w.content
          (store_record-IsBytes c.tables bytes) blank w.programmed
          (ap (ops.read d₂ address) size ∙ w.read_back) in
      let after = ap (λ m. m.1) save ∙ w.after in
      let found = load_tables-record g c.tables d₂ address at len (w.read_back ∙ ap some same) in
      rw (after, found, cogging_load) refl
