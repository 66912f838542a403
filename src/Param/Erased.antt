-- ===== src/Param/Erased.antt =====
-- Erasing a key (app_param.c, `app_param_erase`).
use hpm53m1_g6618motor.Base.{
  ℕ, ◌+◌, ◌*◌, ◌<◌, ◌≡◌, ◌≢◌, refl, ◌∙◌, sym, ap, Bool, true, false, not, ◌||◌, Option, none, some,
  List, ltb, leb, ◌==◌, if◌then◌else◌, arith, Bool-cases, Option-cases, inl, inr,
}
use hpm53m1_g6618motor.Flash.{FlashOps, FlashLaws}
use hpm53m1_g6618motor.Param.{
  Store, slot_bytes, data_max, slot_of, param_slot_valid, holds_key, find_slot, rewrite, erase,
  load_flex,
}
use hpm53m1_g6618motor.Param.Rewrite.{erased_slot, written_slot, AreSlots}
use hpm53m1_g6618motor.Param.Scan.{
  find_slot-First, find_slot-none, Reads, load_from-same, load_from-none,
}
use hpm53m1_g6618motor.Param.Place.{
  ReadsParts, IsPlaced, invalid-holds_key, holds_key-slot_key, other_key-holds_key,
  written_slot-holds_key, erased_slot-invalid, rewrite-Reads, sector_read-Reads, slot_of-IsSlot,
}

module _ (ops : FlashOps) where
  -- What a successful erase went through where the key was found.
  data EraseWay (s : Store) (d : ops.Dev) (key : ℕ) : Type 0 where
    absent :
        (sector : List ℕ)
        → ops.read d s.sector_addr (s.slot_count * slot_bytes) ≡ some sector
        → find_slot s.slot_count 0 (holds_key key) sector ≡ none
        → (erase ops s d key).1.1 ≡ d
        → EraseWay s d key
    removed :
        (sector : List ℕ) (target : ℕ)
        → ops.read d s.sector_addr (s.slot_count * slot_bytes) ≡ some sector
        → find_slot s.slot_count 0 (holds_key key) sector ≡ some target
        → erase ops s d key
          ≡ rewrite ops target
              (λ i. if i == target then none else some (slot_of sector i))
              (λ bs. not (param_slot_valid bs))
              (record s { stage = 1; slot = 4294967295; error = 0 })
              d
        → EraseWay s d key

  erase_way : (s : Store) (d : ops.Dev) (key : ℕ) → (erase ops s d key).0 ≡ true → EraseWay s d key
  unfolding erase
  erase_way s d key ok = elim (Bool-cases (not s.ready)) [
    | inl b ↦ absurd (cc (rw b at ok))
    | inr g ↦ elim (Option-cases (ops.read d s.sector_addr (s.slot_count * slot_bytes))) [
      | inl e ↦ absurd (cc (rw (g, e, erase) at ok))
      | inr (sector, e) ↦ elim (Option-cases (find_slot s.slot_count 0 (holds_key key) sector)) [
        | inl t ↦ absent sector e t (rw (g, e, t, erase) refl)
        | inr (target, t) ↦ removed sector target e t (rw (g, e, t, erase) refl)
      ]
    ]
  ]

module _ (ops : FlashOps) (laws : FlashLaws ops) (parts : ReadsParts ops) (s : Store) where
  -- At most one slot of the sector holds the key.
  abbrev pub HeldOnce : ops.Dev → ℕ → Type 0
  HeldOnce d key =
      (i j : ℕ) (bs cs : List ℕ)
      → i < s.slot_count
      → j < s.slot_count
      → ops.read d (s.sector_addr + i * slot_bytes) slot_bytes ≡ some bs
      → ops.read d (s.sector_addr + j * slot_bytes) slot_bytes ≡ some cs
      → holds_key key bs ≡ true
      → holds_key key cs ≡ true
      → i ≡ j

  abbrev without : ℕ → List ℕ → ℕ → Option (List ℕ)
  without target sector i = if i == target then none else some (slot_of sector i)

  without-AreSlots :
      (d : ops.Dev) (sector : List ℕ) (target : ℕ)
      → ops.read d s.sector_addr (s.slot_count * slot_bytes) ≡ some sector
      → AreSlots s.slot_count (without target sector)
  without-AreSlots d sector target e j bs k z =
      let w : slot_of sector j ≡ bs = ground (arith, z) in
      rw⁻¹ w (slot_of-IsSlot ops laws parts s d sector j e k)

  -- The slots after the removal of one.
  removed-Reads :
      (d : ops.Dev) (key target : ℕ) (sector : List ℕ)
      → IsPlaced ops s
      → ops.read d s.sector_addr (s.slot_count * slot_bytes) ≡ some sector
      → let s₁ = record s { stage = 1; slot = 4294967295; error = 0 } in
        let m = rewrite ops target (without target sector) (λ bs. not (param_slot_valid bs)) s₁ d in
        m.0 ≡ true → Reads ops s m.1.1 s.slot_count 0 (λ j. written_slot (without target sector j))
  removed-Reads d key target sector placed e ok =
      let s₁ = record s { stage = 1; slot = 4294967295; error = 0 } in
      let placed' : IsPlaced ops s₁ = record { aligned = placed.aligned; fits = placed.fits } in
      rewrite-Reads ops laws target (without target sector) (λ bs. not (param_slot_valid bs)) s₁ d
        placed' (without-AreSlots d sector target e) ok

  removed-holds_key :
      (key other target j : ℕ) (sector : List ℕ)
      → holds_key key (slot_of sector target) ≡ true
      → other ≢ key
      → let b = written_slot (without target sector j) in
        (holds_key other b ≡ holds_key other (slot_of sector j))
        × (holds_key other (slot_of sector j) ≡ true → b ≡ slot_of sector j)
  removed-holds_key key other target j sector h differs = elim (Bool-cases (j == target)) [
    | inr k ↦ rw k (written_slot-holds_key other (slot_of sector j))
    | inl k ↦
        let z : target ≡ j = ground (arith, k) in
        let gone = invalid-holds_key erased_slot other erased_slot-invalid in
        let none' =
          other_key-holds_key (slot_of sector target) other key
            (holds_key-slot_key (slot_of sector target) key h) differs in
        rw k (rw⁻¹ z (gone ∙ sym none', λ y. absurd (cc (y, none'))))
  ]

  removed_key :
      (d : ops.Dev) (key target j : ℕ) (sector : List ℕ)
      → HeldOnce d key
      → ops.read d s.sector_addr (s.slot_count * slot_bytes) ≡ some sector
      → target < s.slot_count
      → j < s.slot_count
      → holds_key key (slot_of sector target) ≡ true
      → holds_key key (written_slot (without target sector j)) ≡ false
  removed_key d key target j sector once e t k h = elim (Bool-cases (j == target)) [
    | inl z ↦ rw z (invalid-holds_key erased_slot key erased_slot-invalid)
    | inr z ↦ elim (Bool-cases (holds_key key (slot_of sector j))) [
      | inr no_key ↦ rw z ((written_slot-holds_key key (slot_of sector j)).0 ∙ no_key)
      | inl held ↦
          let r = sector_read-Reads ops laws parts s d sector e in
          let same =
            once j target (slot_of sector j) (slot_of sector target) k t
              (r j (omega arith) (omega (arith, k))) (r target (omega arith) (omega (arith, t)))
              held h in
          absurd (ground (arith, same, z))
    ]
  ]

  -- In a sector of the flash whose reads give the parts of a whole, where one slot at most holds the
  -- key: after a successful erase a load of the key finds nothing, and a load of another key finds what
  -- it found before.
  pub load_flex-erase :
      (d : ops.Dev) (key other cap : ℕ)
      → IsPlaced ops s
      → HeldOnce d key
      → other ≢ key
      → (erase ops s d key).0 ≡ true
      → (load_flex ops s (erase ops s d key).1.1 key cap ≡ none)
        × (load_flex ops s (erase ops s d key).1.1 other cap ≡ load_flex ops s d other cap)
  unfolding load_flex
  load_flex-erase d key other cap placed once differs ok =
      let guard =
        λ (o : Option (List ℕ)). if not s.ready || cap == 0 || ltb data_max cap then none else o in
      let fits = λ (n : ℕ). leb n cap in
      elim (erase_way ops s d key ok) [
        | absent sector e searched same ↦
            let r = sector_read-Reads ops laws parts s d sector e in
            let n =
              load_from-none ops s s.slot_count 0 key fits d (slot_of sector) r
                (find_slot-none (holds_key key) sector s.slot_count 0 searched) in
            rw same (ap guard n ∙ guarded_none _, refl)
        | removed sector target e searched way ↦
            let f = find_slot-First (holds_key key) sector s.slot_count 0 target searched in
            let r = sector_read-Reads ops laws parts s d sector e in
            let c = λ (j : ℕ). written_slot (without target sector j) in
            let r' = removed-Reads d key target sector placed e (ap (λ m. m.0) (sym way) ∙ ok) in
            let d' =
              (rewrite ops target (without target sector) (λ bs. not (param_slot_valid bs))
                (record s { stage = 1; slot = 4294967295; error = 0 }) d).1.1 in
            let n = load_from-none ops s s.slot_count 0 key fits d' c r' (λ j l k.
              removed_key d key target j sector once e (omega (arith, f.in_sector))
                (omega (arith, k)) f.passes) in
            let same =
              load_from-same ops s s.slot_count 0 other fits d d' (slot_of sector) c r r'
                (λ j. removed-holds_key key other target j sector f.passes differs) in
            rw way (ap guard n ∙ guarded_none _, ap guard same)
      ]
    where
      guarded_none : (c : Bool) → let o : Option (List ℕ) = none in (if c then o else o) ≡ o
      guarded_none true = refl
      guarded_none false = refl
