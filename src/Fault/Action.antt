-- ===== src/Fault/Action.antt =====
-- What the highest action over the codes is, and when it puts the machine in FAULT.
use hpm53m1_g6618motor.Base.{
  ℕ, zero, suc, ◌+◌, ◌≤◌, ◌<◌, ◌≡◌, ◌↔◌, refl, sym, ◌⊎◌, inl, inr, Bool, true, ◌&&◌, ◌||◌, ◌==◌,
  ltb, arith, ◌∙◌, Bool-cases,
}
use hpm53m1_g6618motor.Fault.{
  Fault, fault, warn, stop, trip, vbus_ov, code_count, effective_latched, action_of, highest,
  get_action, get_blocking_latched, eval_state,
}

highest-ge : (n i : ℕ) (f : ℕ → ℕ) (act : ℕ) → act ≤ highest n i f act
unfolding highest
highest-ge zero i f act = omega arith
highest-ge (suc n) i f act =
    ground (arith, highest-ge n (i + 1) f (f i), highest-ge n (i + 1) f act)

pub highest-bound : (n i : ℕ) (f : ℕ → ℕ) (act j : ℕ) → i ≤ j → j < i + n → f j ≤ highest n i f act
unfolding highest
highest-bound zero i f act j h k = omega arith
highest-bound (suc n) i f act j h k = elim (first_or_later i j h) [
  | inl e ↦ rw (sym e) (ground (arith, highest-ge n (i + 1) f (f i), highest-ge n (i + 1) f act))
  | inr g ↦ ground (
    arith,
    highest-bound n (i + 1) f (f i) j g (omega arith),
    highest-bound n (i + 1) f act j g (omega arith),
  )
]
  where
    first_or_later : (i j : ℕ) → i ≤ j → (i ≡ j) ⊎ (i + 1 ≤ j)
    first_or_later i j h = ground arith

-- The code whose action is the highest, where it is not the action found before.
abbrev pub IsReached : ℕ → ℕ → (ℕ → ℕ) → ℕ → Type 0
IsReached n i f act =
    (highest n i f act ≡ act) ⊎ ((j : ℕ) × ((i ≤ j) × (j < i + n) × (f j ≡ highest n i f act)))

earlier :
    (n i : ℕ) (f : ℕ → ℕ) (act : ℕ)
    → IsReached n (i + 1) f act
    → highest (suc n) i f act ≡ highest n (i + 1) f act
    → IsReached (suc n) i f act
earlier n i f act (inl e) h = inl (h ∙ e)
earlier n i f act (inr (j, (l, k, e))) h = inr (j, (omega arith, omega arith, e ∙ sym h))

taken :
    (n i : ℕ) (f : ℕ → ℕ) (act : ℕ)
    → IsReached n (i + 1) f (f i)
    → highest (suc n) i f act ≡ highest n (i + 1) f (f i)
    → IsReached (suc n) i f act
taken n i f act (inl e) h = inr (i, (omega arith, omega arith, sym (h ∙ e)))
taken n i f act (inr (j, (l, k, e))) h = inr (j, (omega arith, omega arith, e ∙ sym h))

pub highest-IsReached : (n i : ℕ) (f : ℕ → ℕ) (act : ℕ) → IsReached n i f act
unfolding highest
highest-IsReached zero i f act = inl refl
highest-IsReached (suc n) i f act = elim (Bool-cases (ltb act (f i))) [
  | inl e ↦ taken n i f act (highest-IsReached n (i + 1) f (f i)) (rw (e) refl)
  | inr e ↦ earlier n i f act (highest-IsReached n (i + 1) f act) (rw (e) refl)
]

-- Every action is one of the four of `app_fault_action_t`.
abbrev pub IsConfigured : Fault → Type 0
IsConfigured s = (i : ℕ) → s.policy i ≤ trip

-- The code asks for the output to be cut: it is latched or injected, and its policy is TRIP, or STOP
-- with a refused stop or, for the bus overvoltage, beyond the second limit.
abbrev pub Trips : Fault → ℕ → Type 0
Trips s i =
    (effective_latched s i ≡ true)
    × ((s.policy i ≡ trip)
        ⊎ ((s.policy i ≡ stop)
            × ((s.stop_escalated ≡ true) ⊎ ((i ≡ vbus_ov) × (s.ov_trip ≡ true)))))

action_of-trip : (s : Fault) (i : ℕ) → s.policy i ≤ trip → (action_of s i ≡ trip) ↔ Trips s i
unfolding action_of
action_of-trip s i h = ground arith

action_of-le : (s : Fault) (i : ℕ) → s.policy i ≤ trip → action_of s i ≤ trip
unfolding action_of
action_of-le s i h = ground arith

get_action-le : (s : Fault) → IsConfigured s → get_action s ≤ trip
unfolding get_action
get_action-le s h = elim (highest-IsReached code_count 0 (action_of s) warn) [
  | inl e ↦ ground (arith, e)
  | inr (j, (l, k, e)) ↦ ground (arith, e, action_of-le s j (h j))
]

action_of-get_action : (s : Fault) (i : ℕ) → i < code_count → action_of s i ≤ get_action s
unfolding get_action
action_of-get_action s i h =
    highest-bound code_count 0 (action_of s) warn i (omega arith) (omega arith)

get_action-trip :
    (s : Fault) → get_action s ≡ trip → (i : ℕ) × ((i < code_count) × (action_of s i ≡ trip))
unfolding get_action
get_action-trip s h = elim (highest-IsReached code_count 0 (action_of s) warn) [
  | inl e ↦ ground (arith, e)
  | inr (j, (l, k, e)) ↦ (j, (omega arith, e ∙ h))
]

eval_state-get_action :
    (pending : Bool) (s : Fault) → ((eval_state pending s).state ≡ fault) ↔ (get_action s ≡ trip)
unfolding eval_state
eval_state-get_action pending s = ground arith

-- Where every policy is one of the four actions, `fault_eval_state` puts the machine in FAULT exactly
-- when one of the twelve codes asks for the output to be cut: it is latched or injected, and its
-- policy is TRIP, or STOP with a refused stop or, for the bus overvoltage, beyond the second limit.
pub eval_state_faults :
    (pending : Bool) (s : Fault)
    → IsConfigured s
    → ((eval_state pending s).state ≡ fault) ↔ ((i : ℕ) × ((i < code_count) × Trips s i))
eval_state_faults pending s h = (
  λ e.
      let (i, (l, t)) = get_action-trip s ((eval_state-get_action pending s).0 e) in
      (i, (l, (action_of-trip s i (h i)).0 t)),
  λ (i, (l, t)). (eval_state-get_action pending s).1 (
      ground
        (arith, get_action-le s h, action_of-get_action s i l, (action_of-trip s i (h i)).1 t)),
)

-- The cached mask of the codes that ask for STOP or TRIP is the one of the policies.
abbrev pub IsMasked : Fault → Type 0
IsMasked s =
    (i : ℕ) → s.action_mask i ≡ (ltb i code_count && (s.policy i == stop || s.policy i == trip))

action_of-blocking :
    (s : Fault) (i : ℕ)
    → s.action_mask i ≡ (ltb i code_count && (s.policy i == stop || s.policy i == trip))
    → i < code_count
    → s.policy i ≤ trip
    → (stop ≤ action_of s i) ↔ (get_blocking_latched s i ≡ true)
unfolding action_of get_blocking_latched
action_of-blocking s i m l h = ground arith

get_action-stop :
    (s : Fault) → stop ≤ get_action s → (i : ℕ) × ((i < code_count) × (stop ≤ action_of s i))
unfolding get_action
get_action-stop s h = elim (highest-IsReached code_count 0 (action_of s) warn) [
  | inl e ↦ ground (arith, e)
  | inr (j, (l, k, e)) ↦ (j, (omega arith, omega (arith, e)))
]

-- Where the mask is up to date, the two views that other modules take of a fault agree.
pub blocking_action :
    (s : Fault)
    → IsMasked s
    → IsConfigured s
    → (stop ≤ get_action s) ↔ ((i : ℕ) × ((i < code_count) × (get_blocking_latched s i ≡ true)))
blocking_action s m h = (
  λ e.
      let (i, (l, a)) = get_action-stop s e in (i, (l, (action_of-blocking s i (m i) l (h i)).0 a)),
  λ (i, (l, b)).
      omega (arith, (action_of-blocking s i (m i) l (h i)).1 b, action_of-get_action s i l),
)
