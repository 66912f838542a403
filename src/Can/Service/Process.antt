-- ===== src/Can/Service/Process.antt =====
-- `can_process_rx` (app_can_service.c): at most eight frames a step, each decoded, planned, executed
-- and answered.
pub mod Order
use hpm53m1_g6618motor.Base.{
  ℕ, zero, suc, ◌+◌, Bool, true, false, not, Option, none, some, List, ◌==◌, if◌then◌else◌,
}
use hpm53m1_g6618motor.Float.{FloatOps}
use hpm53m1_g6618motor.Can.Protocol.{Frame, Rc, success, foreign, invalid, default_scale, decode}
use hpm53m1_g6618motor.Can.Policy.{
  Action, act_drop, act_release_output, act_enable, act_disable, act_clear, act_mit, act_position,
  act_velocity, act_force_pos, motion_none, plan,
}
use hpm53m1_g6618motor.Can.Service.{Item, Service, Stats, u32, rx_budget, dequeue}
use hpm53m1_g6618motor.Can.Service.Execute.{CanEnv, exec_action, send_feedback}

abbrev pub bump_if : Bool → ℕ → ℕ
bump_if b n = if b then u32 (n + 1) else n

module _ (fl : FloatOps) (env : CanEnv) where
  open env use {World}

  -- The execution of the planned action, with the count that it changes.
  unfoldable pub carry_out : Action → Frame → Stats → World → Stats × World
  carry_out act_release_output frame st w =
      (record st { mode_switch = u32 (st.mode_switch + 1) }, env.motion_release_output w)
  carry_out act_drop frame st w = (record st { rejected = u32 (st.rejected + 1) }, w)
  carry_out act frame st w =
      let (accepted, w') = exec_action fl env w act frame in
      (record st { rejected = bump_if (not accepted) st.rejected }, w')

  -- The part of the loop's body behind the check of the decoder's result.
  unfoldable pub respond : Frame → ℕ → Bool → Stats → World → Stats × World
  respond frame node mit_enabled st w =
      let snap = env.snapshot w in
      let active_mode = if snap.active then snap.mode else motion_none in
      let action = plan frame.kind active_mode snap.active (env.foc_state w) mit_enabled in
      let (st', w') = carry_out action frame st w in
      let (sent, w'') = send_feedback fl env node w' in
      (record st' { tx_fail = bump_if (not sent) st'.tx_fail }, w'')

  -- The loop's body on one item.
  unfoldable pub handle_item : Item → ℕ → Bool → Stats → World → Stats × World
  handle_item item node mit_enabled st w =
      let (rc, frame) = decode fl item.id item.bytes item.len node default_scale in
      elim rc [
        | invalid ↦ (record st { bad_frames = u32 (st.bad_frames + 1) }, w)
        | foreign ↦ (record st { foreign_frames = u32 (st.foreign_frames + 1) }, w)
        | success ↦
            respond frame node mit_enabled (record st { rx_frames = u32 (st.rx_frames + 1) }) w
      ]

  -- The loop with the rounds left.
  unfoldable pub process_from : ℕ → Bool → Service → World → Service × World
  process_from zero mit_enabled s w = (s, w)
  process_from (suc n) mit_enabled s w = elim (s.rx_tail == s.rx_head) [
    | true ↦ (s, w)
    | false ↦
        let (item, s') = dequeue s in
        let (st, w') = handle_item item s'.node_id mit_enabled s'.stats w in
        process_from n mit_enabled (record s' { stats = st }) w'
  ]

  unfoldable pub process_rx : Service → World → Service × World
  process_rx s w = process_from rx_budget (env.params w).mit_enable s w
