-- ===== src/Param/Rewrite.antt =====
-- What the write-back of the slots leaves in the erased sector (app_param.c, steps 4 of
-- `app_param_store` and 2 of `app_param_erase`).
use hpm53m1_g6618motor.Base.{
  ℕ, zero, suc, ◌+◌, ◌*◌, ◌≤◌, ◌<◌, ◌≡◌, refl, ◌∙◌, sym, ap, ◌⊎◌, inl, inr, true, false, Option,
  none, some, List, if◌then◌else◌, length, replicate, arith, byte_at, Bool-cases, Option-cases,
}
use hpm53m1_g6618motor.Flash.{FlashOps, FlashLaws, Apart}
use hpm53m1_g6618motor.Param.{Store, slot_bytes, param_slot_valid, write_back}

abbrev pub erased_slot : List ℕ
erased_slot = replicate slot_bytes 255

-- What a slot reads after the write-back.
abbrev pub written_slot : Option (List ℕ) → List ℕ
written_slot none = erased_slot
written_slot (some bs) = if param_slot_valid bs then bs else erased_slot

-- Slots as the sector's buffer has them.
abbrev pub AreSlots : ℕ → (ℕ → Option (List ℕ)) → Type 0
AreSlots count slots =
    (j : ℕ) (bs : List ℕ)
    → j < count
    → slots j ≡ some bs
    → (length bs ≡ slot_bytes) × ((k : ℕ) → byte_at bs k < 256)

module _ (ops : FlashOps) (laws : FlashLaws ops) (slots : ℕ → Option (List ℕ)) where
  -- The slots from `i` on and before `i + n` are written, and nothing outside them.
  abbrev pub Written : Store → ℕ → ℕ → ops.Dev → ops.Dev → Type 0
  Written s n i d d' =
      ((j : ℕ)
        → i ≤ j
        → j < i + n
        → ops.read d' (s.sector_addr + j * slot_bytes) slot_bytes ≡ some (written_slot (slots j)))
      × ((a m : ℕ)
          → Apart a m (s.sector_addr + i * slot_bytes) (n * slot_bytes)
          → ops.read d' a m ≡ ops.read d a m)

  step_Written :
      (s : Store) (n i : ℕ) (d d₁ d' : ops.Dev)
      → ops.read d₁ (s.sector_addr + i * slot_bytes) slot_bytes ≡ some (written_slot (slots i))
      → ((a m : ℕ)
          → Apart a m (s.sector_addr + i * slot_bytes) slot_bytes
          → ops.read d₁ a m ≡ ops.read d a m)
      → Written s n (i + 1) d₁ d'
      → Written s (suc n) i d d'
  step_Written s n i d d₁ d' here apart (later, outside) = (
    λ j l k. elim (first_or_later i j l) [
      | inl z ↦
          rw⁻¹ z (outside (s.sector_addr + i * slot_bytes) slot_bytes (inl (omega arith)) ∙ here)
      | inr g ↦ later j g (omega (arith, k))
    ],
    λ a m p. outside a m (ground (arith, p)) ∙ apart a m (ground (arith, p)),
  )
    where
      first_or_later : (i j : ℕ) → i ≤ j → (i ≡ j) ⊎ (i + 1 ≤ j)
      first_or_later i j h = ground arith

  write_back-none :
      (n i : ℕ) (s : Store) (d : ops.Dev)
      → slots i ≡ none
      → write_back ops (suc n) i slots s d ≡ write_back ops n (i + 1) slots s d
  unfolding write_back
  write_back-none n i s d e = rw (e, write_back) refl

  write_back-invalid :
      (n i : ℕ) (s : Store) (d : ops.Dev) (bs : List ℕ)
      → slots i ≡ some bs
      → param_slot_valid bs ≡ false
      → write_back ops (suc n) i slots s d
        ≡ write_back ops n (i + 1) slots (record s { slot = i }) d
  unfolding write_back
  write_back-invalid n i s d bs e v = rw (e, v, write_back) refl

  write_back-valid :
      (n i : ℕ) (s : Store) (d : ops.Dev) (bs : List ℕ)
      → slots i ≡ some bs
      → param_slot_valid bs ≡ true
      → let t = record s { slot = i } in
        let m = ops.program d (s.sector_addr + i * slot_bytes) bs in
        write_back ops (suc n) i slots s d ≡ (
          if m.0
          then write_back ops n (i + 1) slots t m.1
          else (false, (record t { error = 4 }, m.1)))
  unfolding write_back
  write_back-valid n i s d bs e v = rw (e, v, write_back) refl

  pub write_back-Written :
      (n i : ℕ) (s : Store) (d : ops.Dev)
      → AreSlots (i + n) slots
      → ((j : ℕ)
          → i ≤ j
          → j < i + n
          → ops.read d (s.sector_addr + j * slot_bytes) slot_bytes ≡ some erased_slot)
      → (write_back ops n i slots s d).0 ≡ true
      → Written s n i d (write_back ops n i slots s d).1.1
  unfolding write_back
  write_back-Written zero i s d good blank ok =
      (λ j l k. absurd (omega (arith, l, k)), λ a m p. refl)
  write_back-Written (suc n) i s d good blank ok =
      let addr = s.sector_addr + i * slot_bytes in
      let t = record s { slot = i } in
      let good' = λ (j : ℕ) (bs : List ℕ) (k : j < i + 1 + n). good j bs (omega arith) in
      let later =
        λ (j : ℕ) (l : i + 1 ≤ j) (k : j < i + 1 + n). blank j (omega arith) (omega arith) in
      elim (Option-cases (slots i)) [
        | inl e ↦ rw (write_back-none n i s d e) (
            step_Written s n i d d (write_back ops n (i + 1) slots s d).1.1
              (blank i (omega arith) (omega arith) ∙ ap (λ o. some (written_slot o)) (sym e))
              (λ a m p. refl)
              (write_back-Written n (i + 1) s d good' later (rw (write_back-none n i s d e) at ok)))
        | inr (bs, e) ↦ elim (Bool-cases (param_slot_valid bs)) [
          | inr bad ↦ rw (write_back-invalid n i s d bs e bad) (
              step_Written t n i d d (write_back ops n (i + 1) slots t d).1.1
                (blank i (omega arith) (omega arith) ∙ ap some (written-invalid bs e bad))
                (λ a m p. refl)
                (write_back-Written n (i + 1) t d good' later
                  (rw (write_back-invalid n i s d bs e bad) at ok)))
          | inl valid ↦ elim (Bool-cases (ops.program d addr bs).0) [
            | inr failed ↦ absurd (cc (rw (write_back-valid n i s d bs e valid, failed) at ok))
            | inl done ↦
                let d₁ = (ops.program d addr bs).1 in
                let (len, bytes) = good i bs (omega arith) e in
                let apart = λ (a m : ℕ) (p : Apart a m addr slot_bytes).
                  laws.read_program_apart d a addr m bs (ground (arith, p, len)) in
                let programmed = laws.read_programmed d addr bs bytes done (
                  ap (ops.read d addr) len
                  ∙ blank i (omega arith) (omega arith)
                  ∙ ap (λ m. some (replicate m 255)) (sym len)) in
                rw (write_back-valid n i s d bs e valid, done)
                  (step_Written t n i d d₁ (write_back ops n (i + 1) slots t d₁).1.1
                    (ap (ops.read d₁ addr) (sym len)
                      ∙ programmed
                      ∙ ap some (written-valid bs e valid))
                    apart
                    (write_back-Written n (i + 1) t d₁ good'
                      (λ j l k. apart _ slot_bytes (inr (omega arith)) ∙ later j l k)
                      (rw (write_back-valid n i s d bs e valid, done) at ok)))
          ]
        ]
      ]
    where
      written-invalid :
          (bs : List ℕ)
          → slots i ≡ some bs
          → param_slot_valid bs ≡ false
          → erased_slot ≡ written_slot (slots i)
      written-invalid bs e v = sym (ap written_slot e ∙ ap (λ c. if c then bs else erased_slot) v)

      written-valid :
          (bs : List ℕ)
          → slots i ≡ some bs
          → param_slot_valid bs ≡ true
          → bs ≡ written_slot (slots i)
      written-valid bs e v = sym (ap written_slot e ∙ ap (λ c. if c then bs else erased_slot) v)
