-- ===== src/Param/Place.antt =====
-- The sector of the parameter store: what a read of it gives slot by slot, and what a rewrite leaves
-- (app_param.c).
use hpm53m1_g6618motor.Base.{
  ℕ, ◌+◌, ◌*◌, ◌%◌, ◌≤◌, ◌<◌, ◌≡◌, ◌≢◌, refl, ◌∙◌, sym, ap, inl, inr, Bool, true, false, Option,
  none, some, List, if◌then◌else◌, length, take, drop, arith, byte_at, Bool-cases,
}
use hpm53m1_g6618motor.Flash.{FlashOps, FlashLaws}
use hpm53m1_g6618motor.Param.{
  Store, slot_bytes, slot_key, slot_of, param_slot_valid, holds_key, write_back, rewrite,
}
use hpm53m1_g6618motor.Param.Rewrite.{erased_slot, written_slot, AreSlots, write_back-Written}
use hpm53m1_g6618motor.Param.Scan.{Reads}

-- The documented behaviour of a read of a part: it gives that part of a read of the whole.
pub record ReadsParts (ops : FlashOps) : Type 0 where
  pub read_part :
      (d : ops.Dev) (a n i m : ℕ) (bs : List ℕ)
      → 1 ≤ m
      → i + m ≤ n
      → ops.read d a n ≡ some bs
      → ops.read d (a + i) m ≡ some (take m (drop i bs))

-- The slots lie in one sector.
pub record IsPlaced (ops : FlashOps) (s : Store) : Type 0 where
  pub aligned : s.sector_addr % ops.sector_size ≡ 0
  pub fits : s.slot_count * slot_bytes ≤ ops.sector_size

pub erased_slot-invalid : param_slot_valid erased_slot ≡ false
unfolding param_slot_valid
erased_slot-invalid = refl

pub invalid-holds_key :
    (bs : List ℕ) (key : ℕ) → param_slot_valid bs ≡ false → holds_key key bs ≡ false
unfolding holds_key
invalid-holds_key bs key e = rw e refl

pub holds_key-slot_key : (bs : List ℕ) (key : ℕ) → holds_key key bs ≡ true → slot_key bs ≡ key
unfolding holds_key
holds_key-slot_key bs key h = ground arith

pub other_key-holds_key :
    (bs : List ℕ) (other key : ℕ) → slot_key bs ≡ key → other ≢ key → holds_key other bs ≡ false
unfolding holds_key
other_key-holds_key bs other key h d = ground arith

-- A slot that is written back holds the keys that it held.
pub written_slot-holds_key :
    (key : ℕ) (bs : List ℕ)
    → (holds_key key (written_slot (some bs)) ≡ holds_key key bs)
      × (holds_key key bs ≡ true → written_slot (some bs) ≡ bs)
written_slot-holds_key key bs = elim (Bool-cases (param_slot_valid bs)) [
  | inl e ↦
      let kept = ap (λ c. if c then bs else erased_slot) e in (ap (holds_key key) kept, λ h. kept)
  | inr e ↦
      let gone = ap (λ c. if c then bs else erased_slot) e in
      (
        ap (holds_key key) gone
            ∙ invalid-holds_key erased_slot key erased_slot-invalid
            ∙ sym (invalid-holds_key bs key e),
        λ h. absurd (cc (h, invalid-holds_key bs key e)),
      )
]

module _ (ops : FlashOps) (laws : FlashLaws ops) where
  -- What a successful rewrite has done.
  rewrite_steps :
      (target : ℕ) (slots : ℕ → Option (List ℕ)) (good : List ℕ → Bool) (s : Store) (d : ops.Dev)
      → (rewrite ops target slots good s d).0 ≡ true
      → let (erased, d₁) = ops.erase_sector d s.sector_addr in
        let m = write_back ops s.slot_count 0 slots (record s { stage = 4 }) d₁ in
        (erased ≡ true) × (m.0 ≡ true) × ((rewrite ops target slots good s d).1.1 ≡ m.1.1)
  unfolding rewrite
  rewrite_steps target slots good s d h =
      let (erased, d₁) = ops.erase_sector d s.sector_addr in
      let m = write_back ops s.slot_count 0 slots (record s { stage = 4 }) d₁ in
      elim (Bool-cases erased) [
        | inr e ↦ absurd (cc (rw e at h))
        | inl e ↦ elim (Bool-cases m.0) [
          | inr f ↦ absurd (cc (rw (e, f) at h))
          | inl f ↦ (
            e,
            f,
            rw (e, f)
                (read_case m.1.0 m.1.1
                  (ops.read m.1.1 (s.sector_addr + target * slot_bytes) slot_bytes)),
          )
        ]
      ]
    where
      read_case :
          (t : Store) (d₂ : ops.Dev) (o : Option (List ℕ))
          → let r : Bool × (Store × ops.Dev) = elim o [
            | none ↦ (false, (record t { stage = 5; error = 5 }, d₂))
            | some bs ↦
                if good bs
                then (true, (record t { stage = 6 }, d₂))
                else (false, (record t { stage = 5; error = 6 }, d₂))
          ] in
            r.1.1 ≡ d₂
      read_case t d₂ none = refl
      read_case t d₂ (some bs) = elim (Bool-cases (good bs)) [
        | inl e ↦ rw e refl
        | inr e ↦ rw e refl
      ]

  -- The slots after a successful rewrite of the sector.
  pub rewrite-Reads :
      (target : ℕ) (slots : ℕ → Option (List ℕ)) (good : List ℕ → Bool) (s : Store) (d : ops.Dev)
      → IsPlaced ops s
      → AreSlots s.slot_count slots
      → (rewrite ops target slots good s d).0 ≡ true
      → Reads ops s
          (rewrite ops target slots good s d).1.1
          s.slot_count
          0
          (λ j. written_slot (slots j))
  rewrite-Reads target slots good s d placed are ok =
      let (erased, written, e) = rewrite_steps target slots good s d ok in
      let d₁ = (ops.erase_sector d s.sector_addr).1 in
      let w =
        write_back-Written ops laws slots s.slot_count 0 (record s { stage = 4 }) d₁
          (λ j bs k. are j bs (omega (arith, k)))
          (λ j l k.
            laws.read_erased d s.sector_addr (s.sector_addr + j * slot_bytes) slot_bytes erased
              placed.aligned (omega arith) (omega arith) (omega (arith, k, placed.fits)))
          written in
      λ j l k. rw e (w.0 j l k)

module _ (ops : FlashOps) (laws : FlashLaws ops) (parts : ReadsParts ops) (s : Store) where
  -- The slots of a sector that was read as a whole.
  pub sector_read-Reads :
      (d : ops.Dev) (sector : List ℕ)
      → ops.read d s.sector_addr (s.slot_count * slot_bytes) ≡ some sector
      → Reads ops s d s.slot_count 0 (slot_of sector)
  sector_read-Reads d sector e j l k =
      parts.read_part d s.sector_addr (s.slot_count * slot_bytes) (j * slot_bytes) slot_bytes sector
        (omega arith) (omega (arith, k)) e

  pub slot_of-IsSlot :
      (d : ops.Dev) (sector : List ℕ) (j : ℕ)
      → ops.read d s.sector_addr (s.slot_count * slot_bytes) ≡ some sector
      → j < s.slot_count
      → (length (slot_of sector j) ≡ slot_bytes) × ((k : ℕ) → byte_at (slot_of sector j) k < 256)
  slot_of-IsSlot d sector j e k =
      let r = sector_read-Reads d sector e j (omega arith) (omega (arith, k)) in
      (
        laws.read_length d _ slot_bytes (slot_of sector j) r,
        λ b. laws.read_bytes d _ slot_bytes (slot_of sector j) b r,
      )
