-- ===== src/Fault/Blocking.antt =====
-- The cached mask of the codes that ask for STOP or TRIP stays in step with the policies, whatever is
-- called (app_fault.c, `fault_rebuild_action_mask`, `app_fault_get_blocking_latched`).
use hpm53m1_g6618motor.Base.{
  ℕ, ◌≤◌, ◌<◌, ◌≡◌, ◌↔◌, refl, sym, ◌∙◌, Bool, true, false, List, [], ◌∷◌, ltb, ◌==◌, ◌&&◌, ◌||◌,
  ap, arith, if◌then◌else◌,
}
use hpm53m1_g6618motor.Fault.{
  Fault, stop, trip, code_count, policy_design, put, rebuild_action_mask, reload_policy, get_action,
  get_blocking_latched, set_actions_enable, reset_all, eval_state,
}
use hpm53m1_g6618motor.Fault.Action.{IsConfigured, IsMasked, blocking_action}
use hpm53m1_g6618motor.Fault.Advance.{Advances, eval_state-Advances}
use hpm53m1_g6618motor.Fault.Settings.{clear_holds, set_policy_holds}
use hpm53m1_g6618motor.Fault.History.{
  Event, policy_set, All, event_cases, apply, apply-Advances, run,
}

-- The calls that give a code one of the four actions, if any.
abbrev pub IsTyped : Event → Type 0
IsTyped (policy_set code act) = act ≤ trip
IsTyped _ = Unit {0}

abbrev pub InStep : Fault → Type 0
InStep s = IsMasked s × IsConfigured s

Advances-InStep : (s t : Fault) → Advances s t → InStep s → InStep t
Advances-InStep s t a (m, c) = (
  λ i.
      a.same_mask i
      ∙ m i
      ∙ ap (λ p. ltb i code_count && (p == stop || p == trip)) (sym (a.same_policy i)),
  λ i. let same = a.same_policy i in let bound = c i in omega arith,
)

rebuilt-InStep : (s : Fault) → IsConfigured s → InStep (eval_state false (rebuild_action_mask s))
rebuilt-InStep s c =
    let t = rebuild_action_mask s in
    Advances-InStep t _ (eval_state-Advances false t) (λ i. refl, c)

reset_all-InStep : (n : ℕ) (s : Fault) → InStep s → InStep (reset_all n s)
unfolding reset_all
reset_all-InStep n s h = h

set_actions_enable-InStep : (on : Bool) (s : Fault) → InStep (set_actions_enable on s)
unfolding set_actions_enable reload_policy
set_actions_enable-InStep on s =
    rebuilt-InStep (record s { policy = λ i. if on then policy_design i else 0; actions_en = on })
      (λ i. ground arith)

module _ (lt : ℕ → ℕ → Bool) where
  apply-InStep : (e : Event) (s : Fault) → IsTyped e → InStep s → InStep (apply lt e s)
  unfolding apply
  apply-InStep =
      event_cases (λ e. (s : Fault) → IsTyped e → InStep s → InStep (apply lt e s))
        (λ e recording s h m. Advances-InStep s _ (apply-Advances lt e s recording) m)
        (λ io s h m. clear_holds lt InStep io s m (reset_all-InStep io.enc_errors s m))
        (λ on s h m. set_actions_enable-InStep on s)
        (λ code act s h m. set_policy_holds lt InStep code act s m (λ b.
          rebuilt-InStep (record s { policy = put s.policy b act })
            (λ i. let bound = m.1 i in ground arith)))

  run-InStep : (es : List Event) (s : Fault) → All IsTyped es → InStep s → InStep (run lt es s)
  unfolding run
  run-InStep [] s h m = m
  run-InStep (e ∷ es) s (h, hs) m = run-InStep es (apply lt e s) hs (apply-InStep e s h m)

  -- After every history of calls, from a state whose cached mask is up to date and whose policies are
  -- each one of the four actions, as the calls of the history set them: the two views that other
  -- modules take of a fault agree, that is, the action is STOP or TRIP exactly when
  -- `app_fault_get_blocking_latched`, which reads the cached mask, has a bit set.
  pub run_views_agree :
      (es : List Event) (s : Fault)
      → All IsTyped es
      → IsMasked s
      → IsConfigured s
      → (stop ≤ get_action (run lt es s))
        ↔ ((i : ℕ) × ((i < code_count) × (get_blocking_latched (run lt es s) i ≡ true)))
  run_views_agree es s h m c =
      let (m', c') = run-InStep es s h (m, c) in blocking_action (run lt es s) m' c'
