-- ===== src/Loader/Decide.antt =====
-- Which slot `boot_decide` starts.
use Prim.Native.Nat.{bit_xor}
use hpm53m1_g6618motor.Base.{
  ℕ, ◌+◌, ◌%◌, ◌≤◌, ◌≡◌, ◌↔◌, refl, sym, ◌∙◌, ap, ◌⊎◌, inl, inr, Bool, true, false, Option, none,
  some, List, arith, Bool-cases, Option-cases, if◌then◌else◌, ltb, ◌==◌,
}
use hpm53m1_g6618motor.Flash.{FlashOps, FlashLaws}
use hpm53m1_g6618motor.Boot.Header.{slot_none}
use hpm53m1_g6618motor.Boot.Control.{
  ControlRecord, control_load, control_save, control_defaults, control_record_valid,
}
use hpm53m1_g6618motor.Boot.Control.Codec.{InRange, IsSlots}
use hpm53m1_g6618motor.Boot.Control.Confirm.{Sound-some, control_load-Sound}
use hpm53m1_g6618motor.Loader.{
  max_attempts, slot_valid, control_load_or_default, clear_pending, decide_active, decide,
}
use hpm53m1_g6618motor.Loader.Keep.{ViewLaws, slot_valid-control_save}

-- A record that fits and names the two slots only.
abbrev pub IsUsable : ControlRecord → Type 0
IsUsable r = InRange r × IsSlots r

control_record_valid-IsSlots : (r : ControlRecord) → control_record_valid r ≡ true → IsSlots r
unfolding control_record_valid
control_record_valid-IsSlots r h = ground arith

control_defaults-IsUsable : IsUsable control_defaults
unfolding control_defaults
control_defaults-IsUsable = (omega arith, ground arith)

module _ (ops : FlashOps) (laws : FlashLaws ops) where
  pub control_load_or_default-IsUsable : (d : ops.Dev) → IsUsable (control_load_or_default ops d)
  unfolding control_load_or_default
  control_load_or_default-IsUsable d = load_case (control_load ops d) refl
    where
      load_case :
          (o : Option ControlRecord)
          → control_load ops d ≡ o
          → let r : ControlRecord = elim o [ none ↦ control_defaults | some ctl ↦ ctl ] in
            IsUsable r
      load_case none e = control_defaults-IsUsable
      load_case (some r) e =
          let (range, valid) = Sound-some r e (control_load-Sound ops laws d) in
          (range, control_record_valid-IsSlots r valid)

pub other_slot : (a : ℕ) → a ≤ 1 → ((a ≡ 0) × (bit_xor a 1 ≡ 1)) ⊎ ((a ≡ 1) × (bit_xor a 1 ≡ 0))
other_slot a h = elim (zero_or_one a h) [ inl e ↦ inl (e, rw e refl) | inr e ↦ inr (e, rw e refl) ]
  where
    zero_or_one : (a : ℕ) → a ≤ 1 → (a ≡ 0) ⊎ (a ≡ 1)
    zero_or_one a h = ground arith

neither_slot : (f : ℕ → Bool) (s : ℕ) → s ≤ 1 → f s ≡ true → (f 0 ≡ false) × (f 1 ≡ false) → ⊥
neither_slot f s l v (a, b) = elim (zero_or_one s l) [
  | inl e ↦ cc (ap f e, v, a)
  | inr e ↦ cc (ap f e, v, b)
]
  where
    zero_or_one : (a : ℕ) → a ≤ 1 → (a ≡ 0) ⊎ (a ≡ 1)
    zero_or_one a h = ground arith

module _ (ops : FlashOps) (view : ops.Dev → ℕ → ℕ → List ℕ) (laws : FlashLaws ops)
    (keeps : ViewLaws ops view) (size : ops.sector_size ≡ 4096) where
  -- The choice: a valid slot where one is named, and none only if neither slot is valid.
  abbrev pub Chooses : ops.Dev → Option ℕ × ops.Dev → Type 0
  Chooses d (choice, d') =
      ((s : ℕ) → choice ≡ some s → (s ≤ 1) × (slot_valid ops view d' s ≡ true))
      × (choice ≡ none → (slot_valid ops view d 0 ≡ false) × (slot_valid ops view d 1 ≡ false))

  -- The validity of every slot is the same in both states.
  abbrev SameSlots : ops.Dev → ops.Dev → Type 0
  SameSlots d d' = (s : ℕ) → slot_valid ops view d' s ≡ slot_valid ops view d s

  decide_active-Chooses :
      (ctl : ControlRecord) (d₀ d : ops.Dev)
      → IsUsable ctl
      → SameSlots d₀ d
      → Chooses d₀ (decide_active ops view ctl d)
  unfolding decide_active
  decide_active-Chooses ctl d₀ d u same =
      let other = bit_xor ctl.active 1 in
      let saved = record ctl { active = other; pending = slot_none; attempts = 0; confirmed = 0 } in
      elim (other_slot ctl.active u.1.active) [
        | inl (e, x) ↦
            ground
              (arith, e, x, same 0, same 1, slot_valid-control_save ops view keeps size d saved 1)
        | inr (e, x) ↦
            ground
              (arith, e, x, same 0, same 1, slot_valid-control_save ops view keeps size d saved 0)
      ]

  -- A choice between two outcomes.
  either_outcome :
      (P : Option ℕ × ops.Dev → Type 0) (t u : Option ℕ × ops.Dev) (c : Bool)
      → P t
      → P u
      → P (if c then t else u)
  either_outcome P t u true a b = a
  either_outcome P t u false a b = b

  decide_active-SameSlots :
      (ctl : ControlRecord) (d₀ d : ops.Dev)
      → SameSlots d₀ d
      → SameSlots d₀ (decide_active ops view ctl d).1
  unfolding decide_active
  decide_active-SameSlots ctl d₀ d same =
      let P : Option ℕ × ops.Dev → Type 0 = λ m. SameSlots d₀ m.1 in
      let other = bit_xor ctl.active 1 in
      let saved = record ctl { active = other; pending = slot_none; attempts = 0; confirmed = 0 } in
      let taken : Option ℕ × ops.Dev = (some other, (control_save ops d saved).1) in
      either_outcome P (some ctl.active, d)
        (if slot_valid ops view d other then taken else (none, d))
        (slot_valid ops view d ctl.active) same
        (either_outcome P taken (none, d) (slot_valid ops view d other)
          (λ s. slot_valid-control_save ops view keeps size d saved s ∙ same s) same)

  clear_pending-SameSlots : (d : ops.Dev) → SameSlots d (clear_pending ops d).1
  unfolding clear_pending
  clear_pending-SameSlots d s = slot_valid-control_save ops view keeps size d _ s

  decide-Chooses_ways :
      (d : ops.Dev) → let m = decide ops view d false in Chooses d m × SameSlots d m.1
  unfolding decide
  decide-Chooses_ways d =
      let ctl = control_load_or_default ops d in
      let u = control_load_or_default-IsUsable ops laws d in
      let tried = record ctl { attempts = (ctl.attempts + 1) % 256 } in
      let P : Option ℕ × ops.Dev → Type 0 = λ m. Chooses d m × SameSlots d m.1 in
      let d₁ = (clear_pending ops d).1 in
      let a : P (decide_active ops view ctl d) = (
        decide_active-Chooses ctl d d u (λ s. refl),
        decide_active-SameSlots ctl d d (λ s. refl),
      ) in
      let b : P (decide_active ops view ctl d₁) = (
        decide_active-Chooses ctl d d₁ u (clear_pending-SameSlots d),
        decide_active-SameSlots ctl d d₁ (clear_pending-SameSlots d),
      ) in
      elim (Bool-cases (ctl.pending == slot_none)) [
        | inl e ↦ rw e a
        | inr e ↦ elim (Bool-cases (slot_valid ops view d ctl.pending)) [
          | inr v ↦ rw (e, v) b
          | inl v ↦ elim (Bool-cases (ltb max_attempts (ctl.attempts + 1))) [
            | inl f ↦ rw (e, v, f) b
            | inr f ↦
                rw (e, v, f)
                  (
                    ground (
                      arith,
                      u.1.pending,
                      u.1.active,
                      e,
                      slot_valid-control_save ops view keeps size d tried ctl.pending,
                      v,
                    ),
                    slot_valid-control_save ops view keeps size d tried,
                  )
          ]
        ]
      ]

  -- `boot_decide` names a slot only if its image is valid, as the flash stands at the jump, and without
  -- a request it stays in DFU exactly if neither slot holds a valid image.
  pub decide-Chooses :
      (d : ops.Dev)
      → let (choice, d') = decide ops view d false in
        ((s : ℕ) → choice ≡ some s → (s ≤ 1) × (slot_valid ops view d' s ≡ true))
        × ((choice ≡ none)
            ↔ ((slot_valid ops view d 0 ≡ false) × (slot_valid ops view d 1 ≡ false)))
  decide-Chooses d =
      let w = decide-Chooses_ways d in
      let m = decide ops view d false in
      (
        w.0.0,
        (
          w.0.1,
          λ h. elim (Option-cases m.0) [
            | inl e ↦ e
            | inr (s, e) ↦
                let (l, v) = w.0.0 s e in
                absurd (neither_slot (slot_valid ops view d) s l (sym (w.1 s) ∙ v) h)
          ],
        ),
      )
