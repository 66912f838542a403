-- ===== src/Can/Service/Execute.antt =====
-- Executing a planned action and sending the feedback (app_can_service.c, `can_temp_u8`,
-- `can_send_feedback`, `can_exec_action`). The modules that the service calls are an interface: a
-- world with the readings and calls of app_foc.h, app_motion.h, app_fault.h and app_can.h.
use Prim.Native.Nat.{bit_or}
use hpm53m1_g6618motor.Base.{
  ℕ, ◌*◌, ◌/◌, ◌%◌, Bool, true, false, not, ◌&&◌, ◌||◌, Option, none, some, List, [], ◌∷◌, ◌==◌,
  if◌then◌else◌,
}
use hpm53m1_g6618motor.Float.{FloatOps}
use hpm53m1_g6618motor.Can.Protocol.{
  Frame, Scale, default_scale, float_to_uint, feedback_id, hundred,
}
use hpm53m1_g6618motor.Can.Policy.{
  Action, act_drop, act_enable, act_disable, act_clear, act_mit, act_position, act_velocity,
  act_force_pos, act_release_output, foc_off, foc_ready, foc_run, err_from_fault,
}

-- What `app_motion_get_snapshot` fills in, as far as the service reads it.
pub record Snapshot : Type 0 where
  pub active : Bool
  pub mode : ℕ
  pub feedback_valid : Bool
  pub calibrated : Bool
  pub continuous_valid : Bool
  pub output_direction : ℕ
  pub shaft_rad : ℕ
  pub shaft_continuous_rad : ℕ
  pub speed_rad_s : ℕ

-- The parameters of the motor and the software that the service reads.
pub record Params : Type 0 where
  pub kt_nm_per_a : ℕ
  pub reducer_ratio : ℕ
  pub i_peak_10s_a : ℕ
  pub mit_enable : Bool
  pub mit_kp_max : ℕ
  pub mit_kd_max : ℕ

-- A call answers `true` where the C function returns 0.
pub record CanEnv : Type 1 where
  pub World : Type 0
  pub params : World → Params
  pub snapshot : World → Snapshot
  pub foc_state : World → ℕ
  pub latched : World → ℕ
  pub i_q_a : World → ℕ
  pub ntc_temp_c : World → ℕ → Option ℕ
  pub foc_enable : World → Bool × World
  pub motion_stop : World → Bool × World
  pub motion_release_output : World → World
  pub fault_clear : World → Bool × World
  pub motion_mit : World → ℕ → ℕ → ℕ → ℕ → ℕ → Bool × World
  pub motion_position_limited : World → ℕ → ℕ → ℕ → ℕ → Bool × World
  pub motion_speed : World → ℕ → Bool × World
  pub can_send_std : World → ℕ → List ℕ → Bool × World
  pub wrap_pm_pi : ℕ → ℕ
  pub wrap_2pi : ℕ → ℕ

-- The patterns of 0.01f, 30.0f and 254.0f, and of -1.0f.
abbrev pub hundredth : ℕ
hundredth = 0x3C23D70A

abbrev pub v_max : ℕ
v_max = 0x41F00000

abbrev pub temp_max : ℕ
temp_max = 0x437E0000

abbrev pub minus_one : ℕ
minus_one = 0xBF800000

abbrev pub plus_one : ℕ
plus_one = 0x3F800000

module _ (fl : FloatOps) where
  open fl use {add, sub, mul, div, neg, lt, le, of_uint, to_uint}

  -- The eight bytes of `app_can_dm_encode_feedback`.
  unfoldable pub encode_feedback : ℕ → ℕ → ℕ → ℕ → ℕ → ℕ → ℕ → Scale → List ℕ
  encode_feedback node err pos_rad vel_rad_s torque_nm t_mos_c t_rotor_c sc =
      let pos_raw = float_to_uint fl pos_rad (neg sc.p_max_rad) sc.p_max_rad 16 in
      let vel_raw = float_to_uint fl vel_rad_s (neg sc.v_max_rad_s) sc.v_max_rad_s 12 in
      let t_raw = float_to_uint fl torque_nm (neg sc.t_fb_max_nm) sc.t_fb_max_nm 12 in
      bit_or (err % 16 * 16) (node % 16)
      ∷ (pos_raw / 256 % 256)
      ∷ (pos_raw % 256)
      ∷ (vel_raw / 16 % 256)
      ∷ (bit_or (vel_raw % 16 * 16) (t_raw / 256) % 256)
      ∷ (t_raw % 256)
      ∷ t_mos_c
      ∷ t_rotor_c
      ∷ []

  unfoldable pub temp_u8 : Option ℕ → ℕ
  temp_u8 none = 0xFF
  temp_u8 (some temp_c) =
      if not (lt 0 temp_c) then 0 else if le temp_max temp_c then 254 else to_uint temp_c % 256

  -- `v_lim` of the position actions: at least 0.01, at most `cap`.
  unfoldable pub clamp_v : ℕ → ℕ → ℕ
  clamp_v v cap =
      let low = if not (le hundredth v) then hundredth else v in if lt cap low then cap else low

  unfoldable pub clamp_gain : ℕ → ℕ → ℕ
  clamp_gain gain max = let k = if lt max gain then max else gain in if lt k 0 then 0 else k

  -- The sign of the output shaft.
  unfoldable pub direction : ℕ → ℕ
  direction output_direction = if lt output_direction 0 then minus_one else plus_one

  module _ (env : CanEnv) where
    open env use {World}

    unfoldable pub exec_mit : World → Frame → Bool × World
    exec_mit w frame =
        let snap = env.snapshot w in
        let dir = direction snap.output_direction in
        let single = env.wrap_pm_pi (mul snap.shaft_rad dir) in
        let target =
          add (mul snap.shaft_continuous_rad dir) (env.wrap_pm_pi (sub frame.p_des_rad single)) in
        if not snap.continuous_valid
        then (false, w)
        else env.motion_mit w target frame.v_des_rad_s
            (clamp_gain frame.kp (env.params w).mit_kp_max)
            (clamp_gain frame.kd (env.params w).mit_kd_max) frame.t_ff_nm

    -- The `switch` of `can_exec_action`: whether the call was accepted, and the world after it.
    unfoldable pub exec_action : World → Action → Frame → Bool × World
    exec_action w act_enable frame = env.foc_enable w
    exec_action w act_disable frame =
        if env.foc_state w == foc_off
        then (true, env.motion_release_output w)
        else env.motion_stop w
    exec_action w act_clear frame =
        if not (env.foc_state w == foc_off) then (false, w) else env.fault_clear w
    exec_action w act_mit frame = exec_mit w frame
    exec_action w act_position frame =
        let v = frame.v_des_rad_s in
        env.motion_position_limited w (env.wrap_2pi frame.p_des_rad)
          (clamp_v (if lt v 0 then neg v else v) v_max) 0 0
    exec_action w act_force_pos frame =
        env.motion_position_limited w (env.wrap_2pi frame.p_des_rad)
          (clamp_v frame.vel_limit_rad_s hundred) 0 (mul frame.iq_ratio (env.params w).i_peak_10s_a)
    exec_action w act_velocity frame = env.motion_speed w frame.v_des_rad_s
    exec_action w act_drop frame = (true, w)
    exec_action w act_release_output frame = (true, w)

    -- The data of `can_send_feedback` for a node.
    unfoldable pub feedback : ℕ → World → List ℕ
    feedback node w =
        let snap = env.snapshot w in
        let motor = env.params w in
        let enabled = env.foc_state w == foc_ready || env.foc_state w == foc_run in
        let valid = snap.feedback_valid && snap.calibrated in
        let dir = direction snap.output_direction in
        let pos_rad = if valid then env.wrap_pm_pi (mul snap.shaft_rad dir) else 0 in
        let vel_rad_s = if valid then mul snap.speed_rad_s dir else 0 in
        let torque = mul (mul (mul motor.kt_nm_per_a (env.i_q_a w)) motor.reducer_ratio) dir in
        let torque_nm =
          if valid && lt 0 motor.kt_nm_per_a && lt 0 motor.reducer_ratio then torque else 0 in
        encode_feedback node (err_from_fault (env.latched w) valid enabled) pos_rad vel_rad_s
          torque_nm (temp_u8 (env.ntc_temp_c w 0)) (temp_u8 (env.ntc_temp_c w 1)) default_scale

    -- `can_send_feedback`: whether the frame was sent, and the world after it.
    unfoldable pub send_feedback : ℕ → World → Bool × World
    send_feedback node w = env.can_send_std w (feedback_id node) (feedback node w)
