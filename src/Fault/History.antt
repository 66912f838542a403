-- ===== src/Fault/History.antt =====
-- The operations of the fault module in any order, and what a history of them keeps.
use hpm53m1_g6618motor.Base.{
  ℕ, ◌≡◌, ◌≢◌, refl, ◌∙◌, Bool, true, false, Option, none, some, List, [], ◌∷◌, arith,
}
use hpm53m1_g6618motor.Fault.{
  Fault, Analog, fault, warn, app_raise, inject, note_stop_rejected, take_stop_request, set_policy,
  set_actions_enable, reload_policy, reset_all, eval_state, put, rebuild_action_mask, get_action,
}
use hpm53m1_g6618motor.Fault.Tick.{Sensors, tick, clear}
use hpm53m1_g6618motor.Fault.Levels.{set_derate_scale, set_vbus_levels}
use hpm53m1_g6618motor.Fault.Wdog.{on_wdog, wdog_service, set_wdog_rearm}
use hpm53m1_g6618motor.Fault.Advance.{
  Advances, stays, then-Advances, eval_state-Advances, IsDisabled, IsCounted, get_action_disabled,
}
use hpm53m1_g6618motor.Fault.Events.{
  tick-Advances, on_wdog-Advances, wdog_service-Advances, inject-Advances, app_raise-Advances,
  note_stop_rejected-Advances, take_stop_request-Advances,
}
use hpm53m1_g6618motor.Fault.Settings.{
  set_wdog_rearm-Advances, set_derate_scale-Advances, set_vbus_levels-Advances, clear_holds,
  set_policy_holds,
}

-- A call of the module, with what it reads.
pub data Event : Type 0 where
  ticked : Sensors → Event
  wdog_fired : Sensors → ℕ → ℕ → Event
  wdog_serviced : Sensors → Event
  raised : Option Analog → (ℕ → Bool) → Event
  injected : Option Analog → (ℕ → Bool) → Bool → Event
  stop_rejected : Event
  request_taken : Event
  rearm_set : ℕ → ℕ → Event
  scale_set : (ℕ → ℕ → Bool) → ℕ → Event
  levels_set : ℕ → ℕ → ℕ → ℕ → ℕ → Event
  cleared : Sensors → Event
  actions_set : Bool → Event
  policy_set : (ℕ → Bool) → ℕ → Event

-- The calls that neither clear the faults nor change a policy.
abbrev pub IsRecording : Event → Type 0
IsRecording (cleared io) = ⊥
IsRecording (actions_set on) = ⊥
IsRecording (policy_set code act) = ⊥
IsRecording _ = Unit {0}

-- The calls that do not give a code an action other than WARN.
abbrev pub IsMonitoring : Event → Type 0
IsMonitoring (actions_set on) = on ≡ false
IsMonitoring (policy_set code act) = act ≡ warn
IsMonitoring _ = Unit {0}

abbrev pub All : (Event → Type 0) → List Event → Type 0
All P [] = Unit {0}
All P (e ∷ es) = P e × All P es

-- Every action is WARN, the machine is not in FAULT, and no controlled stop is requested.
abbrev pub IsMonitored : Fault → Type 0
IsMonitored s = IsDisabled s × (s.state ≢ fault) × (s.stop_request ≡ none)

-- What holds for the calls that only record, a clearing and the changes of a policy.
pub event_cases :
    (P : Event → Type 0)
    → ((e : Event) → IsRecording e → P e)
    → ((io : Sensors) → P (cleared io))
    → ((on : Bool) → P (actions_set on))
    → ((code : ℕ → Bool) (act : ℕ) → P (policy_set code act))
    → (e : Event) → P e
event_cases P r c a p (ticked io) = r (ticked io) tt
event_cases P r c a p (wdog_fired io i v) = r (wdog_fired io i v) tt
event_cases P r c a p (wdog_serviced io) = r (wdog_serviced io) tt
event_cases P r c a p (raised o code) = r (raised o code) tt
event_cases P r c a p (injected o code on) = r (injected o code on) tt
event_cases P r c a p stop_rejected = r stop_rejected tt
event_cases P r c a p request_taken = r request_taken tt
event_cases P r c a p (rearm_set ms limit) = r (rearm_set ms limit) tt
event_cases P r c a p (scale_set le scale) = r (scale_set le scale) tt
event_cases P r c a p (levels_set ov t uv m n) = r (levels_set ov t uv m n) tt
event_cases P r c a p (cleared io) = c io
event_cases P r c a p (actions_set on) = a on
event_cases P r c a p (policy_set code act) = p code act

module _ (lt : ℕ → ℕ → Bool) where
  unfoldable pub apply : Event → Fault → Fault
  apply (ticked io) s = tick lt io s
  apply (wdog_fired io phase value) s = on_wdog io phase value s
  apply (wdog_serviced io) s = (wdog_service io s).0
  apply (raised r code) s = app_raise r code s
  apply (injected r code on) s = (inject r code on s).1
  apply stop_rejected s = note_stop_rejected s
  apply request_taken s = (take_stop_request s).1
  apply (rearm_set ms limit) s = set_wdog_rearm ms limit s
  apply (scale_set le scale) s = set_derate_scale lt le scale s
  apply (levels_set ov ov_trip uv ov_ms uv_ms) s = set_vbus_levels lt ov ov_trip uv ov_ms uv_ms s
  apply (cleared io) s = (clear lt io s).1
  apply (actions_set on) s = set_actions_enable on s
  apply (policy_set code act) s = set_policy code act s

  unfoldable pub run : List Event → Fault → Fault
  run [] s = s
  run (e ∷ es) s = run es (apply e s)

  pub apply-Advances : (e : Event) (s : Fault) → IsRecording e → Advances s (apply e s)
  unfolding apply
  apply-Advances (ticked io) s h = tick-Advances lt io s
  apply-Advances (wdog_fired io phase value) s h = on_wdog-Advances io phase value s
  apply-Advances (wdog_serviced io) s h = wdog_service-Advances io s
  apply-Advances (raised r code) s h = app_raise-Advances r code s
  apply-Advances (injected r code on) s h = inject-Advances r code on s
  apply-Advances stop_rejected s h = note_stop_rejected-Advances s
  apply-Advances request_taken s h = take_stop_request-Advances s
  apply-Advances (scale_set le scale) s h = set_derate_scale-Advances lt le scale s
  apply-Advances (levels_set ov ov_trip uv ov_ms uv_ms) s h =
      set_vbus_levels-Advances lt ov ov_trip uv ov_ms uv_ms s
  apply-Advances (cleared io) s h = elim h [ ]
  apply-Advances (actions_set on) s h = elim h [ ]
  apply-Advances (policy_set code act) s h = elim h [ ]
  apply-Advances (rearm_set ms limit) s h = set_wdog_rearm-Advances lt ms limit s

  run-Advances : (es : List Event) (s : Fault) → All IsRecording es → Advances s (run es s)
  unfolding run
  run-Advances [] s h = stays s
  run-Advances (e ∷ es) s (h, hs) =
      then-Advances s (apply e s) _ (apply-Advances e s h) (run-Advances es (apply e s) hs)

  -- A history without clearing and without a change of policy keeps every latched code and the code
  -- recorded as the first fault.
  pub run_keeps :
      (es : List Event) (s : Fault)
      → All IsRecording es
      → ((i : ℕ) → s.latched i ≡ true → (run es s).latched i ≡ true)
        × ((f : ℕ) → s.first ≡ some f → (run es s).first ≡ some f)
  run_keeps es s h = let a = run-Advances es s h in (a.keeps_latched, a.keeps_first)

  reset_all-IsCounted : (n : ℕ) (s : Fault) → IsCounted (reset_all n s)
  unfolding reset_all
  reset_all-IsCounted n s i h = ground arith

  set_actions_enable-IsCounted :
      (on : Bool) (s : Fault) → IsCounted s → IsCounted (set_actions_enable on s)
  unfolding set_actions_enable eval_state reload_policy
  set_actions_enable-IsCounted on s c = c

  eval_state-IsCounted : (s : Fault) → IsCounted s → IsCounted (eval_state false s)
  unfolding eval_state
  eval_state-IsCounted s c = c

  apply-IsCounted : (e : Event) (s : Fault) → IsCounted s → IsCounted (apply e s)
  unfolding apply
  apply-IsCounted =
      event_cases (λ e. (s : Fault) → IsCounted s → IsCounted (apply e s))
        (λ e recording s c. (apply-Advances e s recording).counted c)
        (λ io s c. clear_holds lt IsCounted io s c (reset_all-IsCounted io.enc_errors s))
        set_actions_enable-IsCounted
        (λ code act s c. set_policy_holds lt IsCounted code act s c (λ b.
          eval_state-IsCounted (rebuild_action_mask (record s { policy = put s.policy b act })) c))

  -- After every history from a state that records nothing wrongly, each latched code has been counted
  -- at least once, and a first fault is recorded as soon as a code is latched.
  pub run-IsCounted : (es : List Event) (s : Fault) → IsCounted s → IsCounted (run es s)
  unfolding run
  run-IsCounted [] s c = c
  run-IsCounted (e ∷ es) s c = run-IsCounted es (apply e s) (apply-IsCounted e s c)

  Advances-IsMonitored : (s t : Fault) → Advances s t → IsMonitored s → IsMonitored t
  Advances-IsMonitored s t a (d, n, r) =
      (λ i. a.same_policy i ∙ d i, λ h. n (a.no_fault d h), a.no_stop d r)

  reset_all-IsMonitored : (n : ℕ) (s : Fault) → IsMonitored s → IsMonitored (reset_all n s)
  unfolding reset_all
  reset_all-IsMonitored n s (d, k, r) = (d, ground arith, refl)

  set_actions_enable-IsMonitored :
      (on : Bool) (s : Fault) → on ≡ false → IsMonitored s → IsMonitored (set_actions_enable on s)
  unfolding set_actions_enable reload_policy
  set_actions_enable-IsMonitored on s off (d, k, r) =
      let t = rebuild_action_mask (record s { policy = λ i. warn; actions_en = false }) in
      rw off (Advances-IsMonitored t _ (eval_state-Advances false t) (λ i. refl, k, r))

  set_policy-IsMonitored :
      (code : ℕ → Bool) (act : ℕ) (s : Fault)
      → act ≡ warn
      → IsMonitored s
      → IsMonitored (set_policy code act s)
  set_policy-IsMonitored code act s off (d, k, r) =
      set_policy_holds lt IsMonitored code act s (d, k, r)
        (λ b.
          let t = rebuild_action_mask (record s { policy = put s.policy b act }) in
          Advances-IsMonitored t _ (eval_state-Advances false t) (λ i. put_warn b i, k, r))
    where
      put_warn : (b i : ℕ) → put s.policy b act i ≡ warn
      put_warn b i = ground (arith, d i, off)

  apply-IsMonitored :
      (e : Event) (s : Fault) → IsMonitoring e → IsMonitored s → IsMonitored (apply e s)
  unfolding apply
  apply-IsMonitored =
      event_cases (λ e. (s : Fault) → IsMonitoring e → IsMonitored s → IsMonitored (apply e s))
        (λ e recording s h m. Advances-IsMonitored s _ (apply-Advances e s recording) m)
        (λ io s h m. clear_holds lt IsMonitored io s m (reset_all-IsMonitored io.enc_errors s m))
        set_actions_enable-IsMonitored set_policy-IsMonitored

  run_stays-IsMonitored :
      (es : List Event) (s : Fault) → All IsMonitoring es → IsMonitored s → IsMonitored (run es s)
  unfolding run
  run_stays-IsMonitored [] s h m = m
  run_stays-IsMonitored (e ∷ es) s (h, hs) m =
      run_stays-IsMonitored es (apply e s) hs (apply-IsMonitored e s h m)

  -- With every action at WARN, the machine not in FAULT and no controlled stop requested, every history
  -- of calls that leave the actions at WARN keeps it so, and no code asks for an action above WARN.
  pub run-IsMonitored :
      (es : List Event) (s : Fault)
      → All IsMonitoring es
      → IsMonitored s
      → IsMonitored (run es s) × (get_action (run es s) ≡ warn)
  run-IsMonitored es s h m =
      let kept = run_stays-IsMonitored es s h m in (kept, get_action_disabled (run es s) kept.0)
