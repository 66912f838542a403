-- ===== src/Fault/Clear.antt =====
-- When the faults are cleared, and what is left of them.
use hpm53m1_g6618motor.Base.{
  ℕ, ◌≤◌, ◌<◌, ◌≡◌, refl, ap, ◌⊎◌, Bool, true, false, not, Option, none, some, if◌then◌else◌, arith,
  inl, inr,
}
use hpm53m1_g6618motor.Fault.{
  Fault, Snap, zero_analog, normal, Analog, warn, get_action, action_of, highest, reset_all,
}
use hpm53m1_g6618motor.Fault.Tick.{Sensors, raw_inside, clear, conditions_ok, bus_ok}

-- What a clearing needs: the bus voltage inside its limits where it can be read, and each phase within
-- the current limit and inside the window of the ADC.
abbrev pub IsSafe : (ℕ → ℕ → Bool) → Sensors → Fault → Type 0
IsSafe lt io s =
    ((v : Analog)
      → io.analog ≡ some v
      → (lt s.config.vbus_ov_v v.v_bus_v ≡ false) × (lt v.v_bus_v s.config.vbus_uv_v ≡ false))
    × ((i : ℕ)
        → i < 3
        → (lt s.config.oc_slow_a (io.rms i) ≡ false)
          × ((raw : ℕ) × ((io.raw i ≡ some raw)
                × (s.config.thshd_low ≤ raw)
                × (raw ≤ s.config.thshd_high))))

raw_inside-some :
    (s : Fault) (o : Option ℕ)
    → raw_inside s o ≡ true
    → (raw : ℕ) × ((o ≡ some raw) × (s.config.thshd_low ≤ raw) × (raw ≤ s.config.thshd_high))
unfolding raw_inside
raw_inside-some s none h = ground arith
raw_inside-some s (some raw) h = (raw, (refl, ground arith, ground arith))

bus_ok-limits :
    (lt : ℕ → ℕ → Bool) (io : Sensors) (s : Fault) (o : Option Analog) (v : Analog)
    → bus_ok lt io s o ≡ true
    → o ≡ some v
    → (lt s.config.vbus_ov_v v.v_bus_v ≡ false) × (lt v.v_bus_v s.config.vbus_uv_v ≡ false)
unfolding bus_ok
bus_ok-limits lt io s none v h e = ground arith
bus_ok-limits lt io s (some w) v h e = rw⁻¹ (ap (voltage w) e) (ground arith)
  where
    voltage : Analog → Option Analog → ℕ
    voltage w none = w.v_bus_v
    voltage w (some v) = v.v_bus_v

three_cases : (i : ℕ) → i < 3 → (i ≡ 0) ⊎ ((i ≡ 1) ⊎ (i ≡ 2))
three_cases i h = ground arith

conditions_ok-IsSafe :
    (lt : ℕ → ℕ → Bool) (io : Sensors) (s : Fault) → conditions_ok lt io s ≡ true → IsSafe lt io s
unfolding conditions_ok
conditions_ok-IsSafe lt io s h = (
  λ v e. bus_ok-limits lt io s io.analog v (ground arith) e,
  λ i k. elim (three_cases i k) [
    | inl e ↦ rw (e) (ground arith, raw_inside-some s (io.raw 0) (ground arith))
    | inr (inl e) ↦ rw (e) (ground arith, raw_inside-some s (io.raw 1) (ground arith))
    | inr (inr e) ↦ rw (e) (ground arith, raw_inside-some s (io.raw 2) (ground arith))
  ],
)

-- No code is recorded, counted or injected any more.
abbrev pub NoCodes : Fault → Type 0
NoCodes s =
    (i : ℕ)
    → (s.latched i ≡ false) × (s.active i ≡ false) × (s.injected i ≡ false) × (s.event_cnt i ≡ 0)

-- The snapshot of the first fault is empty.
abbrev pub IsEmptySnap : Snap → Type 0
IsEmptySnap snap = (snap.code ≡ none) × (snap.oc_fast_raw ≡ 0) × (snap.values ≡ zero_analog)

-- The counters of the checks start again, the encoders' from the given error count.
abbrev pub IsCounterReset : ℕ → Fault → Type 0
IsCounterReset enc_errors s =
    ((i : ℕ) → s.oc_slow_cnt i ≡ 0)
    × (s.vbus_ov_cnt ≡ 0)
    × (s.vbus_uv_cnt ≡ 0)
    × (s.adc_stall_cnt ≡ 0)
    × (s.enc_err_last ≡ enc_errors)

-- Every phase may be re-armed as often as at the start.
abbrev pub IsRearmed : Fault → Type 0
IsRearmed s =
    (i : ℕ)
    → (s.wdog_hit i ≡ false)
      × (s.wdog_locked i ≡ false)
      × (s.wdog_rearm_cnt i ≡ 0)
      × (s.wdog_rearm_wait i ≡ 0)

-- Nothing is recorded any more, everything counted starts again, and no code asks for an action.
abbrev pub IsReset : ℕ → Fault → Type 0
IsReset enc_errors s =
    NoCodes s
    × (s.first ≡ none)
    × IsEmptySnap s.snap
    × IsCounterReset enc_errors s
    × IsRearmed s
    × (s.ov_trip ≡ false)
    × (s.stop_escalated ≡ false)
    × (s.stop_request ≡ none)
    × (s.state ≡ normal)
    × (get_action s ≡ warn)

reset_all-IsReset : (n : ℕ) (s : Fault) → IsReset n (reset_all n s)
unfolding reset_all get_action action_of highest
reset_all-IsReset n s = (
  λ i. (refl, refl, refl, refl),
  refl,
  (refl, refl, refl),
  (λ i. refl, refl, refl, refl, refl),
  λ i. (refl, refl, refl, refl),
  refl,
  refl,
  refl,
  refl,
  refl,
)

-- What a result of the clearing says.
abbrev pub Clears : (ℕ → ℕ → Bool) → Sensors → Fault → Bool × Fault → Type 0
Clears lt io s (ok, t) =
    (ok ≡ true → (s.ready ≡ true) × IsSafe lt io s × IsReset io.enc_errors t) × (ok ≡ false → t ≡ s)

Clears-case :
    (lt : ℕ → ℕ → Bool) (io : Sensors) (s : Fault) (ready met : Bool)
    → s.ready ≡ ready
    → conditions_ok lt io s ≡ met
    → Clears lt io s (
        if not ready
        then (false, s)
        else if met
        then (true, reset_all io.enc_errors s)
        else (false, s))
Clears-case lt io s true true r m =
    (λ h. (r, conditions_ok-IsSafe lt io s m, reset_all-IsReset io.enc_errors s), λ h. ground arith)
Clears-case lt io s true false r m = (λ h. ground arith, λ h. refl)
Clears-case lt io s false met r m = (λ h. ground arith, λ h. refl)

-- `app_fault_clear` succeeds only when the module is ready and every measurement is within its limits,
-- and then no code stays latched, active, injected or counted, the first fault and its snapshot are
-- empty, the counters of the checks and of the re-arming start again (the encoders' from their present
-- error count), no escalation or STOP is pending, the state is NORMAL and no code asks for an action;
-- where it fails, the state is as before.
pub clear_only_safe :
    (lt : ℕ → ℕ → Bool) (io : Sensors) (s : Fault) → Clears lt io s (clear lt io s)
unfolding clear
clear_only_safe lt io s = Clears-case lt io s s.ready (conditions_ok lt io s) refl refl
