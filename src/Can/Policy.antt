-- ===== src/Can/Policy.antt =====
-- From frames to actions, and from faults to the error code of the feedback (app_can_policy.c).
pub mod Safety
use Prim.Native.Nat.{bit_and}
use hpm53m1_g6618motor.Base.{ℕ, Bool, true, false, not, ◌&&◌, ◌||◌, ◌==◌, if◌then◌else◌}
use hpm53m1_g6618motor.Can.Protocol.{
  Kind, kind_none, mit, pos_vel, vel, force_pos, enable, disable, clear,
}

-- `app_can_dm_action_t`
pub data Action : Type 0 where
  act_drop act_enable act_disable act_clear act_mit act_position act_velocity act_force_pos : Action
  act_release_output : Action

abbrev pub foc_off : ℕ
foc_off = 0

abbrev pub foc_ready : ℕ
foc_ready = 1

abbrev pub foc_run : ℕ
foc_run = 2

abbrev pub motion_none : ℕ
motion_none = 0xFF

abbrev pub motion_speed : ℕ
motion_speed = 1

abbrev pub motion_position : ℕ
motion_position = 2

abbrev pub motion_mit : ℕ
motion_mit = 3

-- The part of `app_can_dm_plan` behind its first `switch`.
unfoldable pub plan_motion : Kind → ℕ → ℕ → Bool → ℕ → Action
plan_motion kind desired_mode active_mode active foc_state =
    if not (foc_state == foc_ready) && not (foc_state == foc_run)
    then act_drop
    else if active && not (active_mode == desired_mode)
    then act_release_output
    else elim kind [
      | mit ↦ act_mit
      | vel ↦ act_velocity
      | force_pos ↦ act_force_pos
      | _ ↦ act_position
    ]

-- `app_can_dm_plan` for the kind of a frame; with no pointer NULL it always returns 0.
unfoldable pub plan : Kind → ℕ → Bool → ℕ → Bool → Action
unfolding plan_motion
plan enable active_mode active foc_state mit_enabled = act_enable
plan disable active_mode active foc_state mit_enabled = act_disable
plan clear active_mode active foc_state mit_enabled = act_clear
plan mit active_mode active foc_state mit_enabled =
    if not mit_enabled then act_drop else plan_motion mit motion_mit active_mode active foc_state
plan pos_vel active_mode active foc_state mit_enabled =
    plan_motion pos_vel motion_position active_mode active foc_state
plan force_pos active_mode active foc_state mit_enabled =
    plan_motion force_pos motion_position active_mode active foc_state
plan vel active_mode active foc_state mit_enabled =
    plan_motion vel motion_speed active_mode active foc_state
plan kind_none active_mode active foc_state mit_enabled = act_drop

-- APP_FAULT_OC_FAST_U to _W, OC_SLOW_U to _W and OC_TRIP.
abbrev pub oc_mask : ℕ
oc_mask = 0x43F

unfoldable pub err_from_fault : ℕ → Bool → Bool → ℕ
err_from_fault latched feedback_valid enabled =
    if not (bit_and latched oc_mask == 0)
    then 0xA
    else if not (bit_and latched 0x40 == 0)
    then 0x8
    else if not (bit_and latched 0x80 == 0)
    then 0x9
    else if not (bit_and latched 0x800 == 0)
    then 0xD
    else if not feedback_valid || not (latched == 0)
    then 0xF
    else if enabled
    then 0x1
    else 0x0
