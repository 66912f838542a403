-- ===== src/Fault/Settings.antt =====
-- What the settings, a clearing and a change of a policy keep.
use hpm53m1_g6618motor.Base.{
  ℕ, refl, Bool, ◌&&◌, true, false, not, Option, none, some, if◌then◌else◌,
}
use hpm53m1_g6618motor.Float.{finite}
use hpm53m1_g6618motor.Fault.{
  Fault, rebuild_action_mask, set_policy, reset_all, eval_state, code_bit, put,
}
use hpm53m1_g6618motor.Fault.Tick.{Sensors, clear, conditions_ok}
use hpm53m1_g6618motor.Fault.Wdog.{set_wdog_rearm}
use hpm53m1_g6618motor.Fault.Levels.{set_derate_scale, set_vbus_levels, one_float}
use hpm53m1_g6618motor.Fault.Advance.{Advances, stays, untouched, either-Advances}

module _ (lt : ℕ → ℕ → Bool) where
  pub set_wdog_rearm-Advances : (ms limit : ℕ) (s : Fault) → Advances s (set_wdog_rearm ms limit s)
  unfolding set_wdog_rearm
  set_wdog_rearm-Advances ms limit s = untouched s _ refl refl refl refl refl refl (λ d h. h)

  pub set_derate_scale-Advances :
      (le : ℕ → ℕ → Bool) (scale : ℕ) (s : Fault) → Advances s (set_derate_scale lt le scale s)
  unfolding set_derate_scale
  set_derate_scale-Advances le scale s =
      either-Advances s (record s { derate_scale = scale }) s
        (finite scale && lt 0 scale && le scale one_float)
        (untouched s _ refl refl refl refl refl refl (λ d h. h)) (stays s)

  pub set_vbus_levels-Advances :
      (ov ov_trip uv ov_ms uv_ms : ℕ) (s : Fault)
      → Advances s (set_vbus_levels lt ov ov_trip uv ov_ms uv_ms s)
  unfolding set_vbus_levels
  set_vbus_levels-Advances ov ov_trip uv ov_ms uv_ms s =
      untouched s _ refl refl refl refl refl refl (λ d h. h)

  -- What holds before a clearing and after a reset holds after the clearing.
  pub clear_holds :
      (P : Fault → Type 0) (io : Sensors) (s : Fault)
      → P s
      → P (reset_all io.enc_errors s)
      → P (clear lt io s).1
  unfolding clear
  clear_holds P io s a b =
      either (false, s)
        (if conditions_ok lt io s then (true, reset_all io.enc_errors s) else (false, s))
        (not s.ready) a
        (either (true, reset_all io.enc_errors s) (false, s) (conditions_ok lt io s) b a)
    where
      either : (t u : Bool × Fault) (c : Bool) → P t.1 → P u.1 → P (if c then t else u).1
      either t u true a b = a
      either t u false a b = b

  pub set_policy_holds :
      (P : Fault → Type 0) (code : ℕ → Bool) (act : ℕ) (s : Fault)
      → P s
      → ((b : ℕ)
          → P (eval_state false (rebuild_action_mask (record s { policy = put s.policy b act }))))
      → P (set_policy code act s)
  unfolding set_policy
  set_policy_holds P code act s a b = option_case (code_bit code)
    where
      option_case :
          (o : Option ℕ)
          → let t : Fault = elim o [
            | none ↦ s
            | some b ↦
                eval_state false (rebuild_action_mask (record s { policy = put s.policy b act }))
          ] in
            P t
      option_case none = a
      option_case (some k) = b k
