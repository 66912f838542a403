-- ===== src/Fault.antt =====
-- Fault protection (App/Control/Src/app_fault.c): the latches, the action policy and the operations on
-- them. A `uint32_t` bit map of codes is a function of the bit's index; a code is its index; `none`
-- stands for the code 0.
pub mod Tick
pub mod Wdog
pub mod Levels
pub mod Action
pub mod Advance
pub mod Events
pub mod Settings
pub mod History
pub mod Blocking
pub mod Rearm
pub mod Clear
mod Tests
use hpm53m1_g6618motor.Base.{
  ℕ, zero, suc, ◌+◌, ◌≤◌, ◌≡◌, Bool, true, false, not, ◌&&◌, ◌||◌, Option, none, some, ltb, leb,
  ◌==◌, if◌then◌else◌,
}

abbrev pub code_count : ℕ
code_count = 12

abbrev pub vbus_ov : ℕ
vbus_ov = 6

abbrev pub vbus_uv : ℕ
vbus_uv = 7

abbrev pub adc_timeout : ℕ
adc_timeout = 8

abbrev pub enc_read : ℕ
enc_read = 9

-- `app_fault_action_t`, in its order.
abbrev pub warn : ℕ
warn = 0

abbrev pub derate : ℕ
derate = 1

abbrev pub stop : ℕ
stop = 2

abbrev pub trip : ℕ
trip = 3

pub data State : Type 0 where
  init normal warning fault : State

-- The analog values of a snapshot: the phase currents and the bus voltage.
pub record Analog : Type 0 where
  pub i_u_a : ℕ
  pub i_v_a : ℕ
  pub i_w_a : ℕ
  pub v_bus_v : ℕ

-- `app_fault_snapshot_t`
pub record Snap : Type 0 where
  pub code : Option ℕ
  pub oc_fast_raw : ℕ
  pub values : Analog

-- Thresholds and times of `app_fault_ctx_t`, with the debounce limits.
pub record Config : Type 0 where
  pub oc_slow_a : ℕ
  pub vbus_ov_v : ℕ
  pub vbus_uv_v : ℕ
  pub vbus_ov_trip_v : ℕ
  pub slow_debounce : ℕ
  pub adc_stall_ms : ℕ
  pub enc_err_delta : ℕ
  pub thshd_high : ℕ
  pub thshd_low : ℕ
  pub vbus_ov_ms : ℕ
  pub vbus_uv_ms : ℕ
  pub rearm_ticks : ℕ
  pub rearm_max : ℕ

-- The state of `app_fault_ctx_t` and the static variables beside it.
pub record Fault : Type 0 where
  pub config : Config
  pub ready : Bool
  pub state : State
  pub active : ℕ → Bool
  pub latched : ℕ → Bool
  pub injected : ℕ → Bool
  pub first : Option ℕ
  pub snap : Snap
  pub event_cnt : ℕ → ℕ
  pub oc_slow_cnt : ℕ → ℕ
  pub vbus_ov_cnt : ℕ
  pub vbus_uv_cnt : ℕ
  pub adc_stall_cnt : ℕ
  pub settle_ticks : ℕ
  pub enc_err_last : ℕ
  pub seq_last : ℕ
  pub wdog_hit : ℕ → Bool
  pub wdog_locked : ℕ → Bool
  pub wdog_rearm_cnt : ℕ → ℕ
  pub wdog_rearm_wait : ℕ → ℕ
  pub ov_trip : Bool
  pub stop_escalated : Bool
  pub stop_request : Option ℕ
  pub policy : ℕ → ℕ
  pub action_mask : ℕ → Bool
  pub actions_en : Bool
  pub derate_scale : ℕ

-- An entry of an array, or a bit of a map, written.
abbrev pub put {ℓ} : {A : Type ℓ} → (ℕ → A) → ℕ → A → ℕ → A
put f k v i = if i == k then v else f i

-- `if (n < 0xFFFFU) n++`
abbrev pub saturate : ℕ → ℕ
saturate n = if ltb n 65535 then n + 1 else n

abbrev pub zero_analog : Analog
zero_analog = record { i_u_a = 0; i_v_a = 0; i_w_a = 0; v_bus_v = 0 }

-- `fault_code_bit`: the lowest of the twelve bits that is set.
unfoldable pub code_bit_from : ℕ → ℕ → (ℕ → Bool) → Option ℕ
code_bit_from zero i code = none
code_bit_from (suc n) i code =
    let rest = code_bit_from n (i + 1) code in if code i then some i else rest

unfoldable pub code_bit : (ℕ → Bool) → Option ℕ
unfolding code_bit_from
code_bit code = code_bit_from code_count 0 code

-- `s_policy_design`
abbrev pub policy_design : ℕ → ℕ
policy_design i =
    if ltb i 3
    then trip
    else if ltb i 6
    then derate
    else if i == 6 || i == 7 || i == 11
    then stop
    else if i == 8 || i == 10
    then trip
    else warn

-- `fault_rebuild_action_mask`: `s_action_mask` gets the codes with a policy of STOP or TRIP.
abbrev pub rebuild_action_mask : Fault → Fault
rebuild_action_mask s = record s {
  action_mask = λ i. ltb i code_count && (s.policy i == stop || s.policy i == trip);
}

-- `fault_reload_policy`
unfoldable pub reload_policy : Fault → Fault
reload_policy s =
    rebuild_action_mask (record s { policy = λ i. if s.actions_en then policy_design i else warn })

-- `app_fault_get_policy`
unfoldable pub get_policy : Fault → Option ℕ → ℕ
get_policy s none = warn
get_policy s (some i) = s.policy i

abbrev pub effective_active : Fault → ℕ → Bool
effective_active s i = s.active i || s.injected i

abbrev pub effective_latched : Fault → ℕ → Bool
effective_latched s i = s.latched i || s.injected i

-- What one round of the loop of `app_fault_get_action` compares with the action found before; 0 is
-- `continue`.
unfoldable pub action_of : Fault → ℕ → ℕ
action_of s i =
    let p = s.policy i in
    let p₁ = if i == vbus_ov && s.ov_trip && leb stop p then trip else p in
    let p₂ = if s.stop_escalated && p₁ == stop then trip else p₁ in
    if not (effective_latched s i) && not (effective_active s i)
    then warn
    else if (if p == derate then not (effective_active s i) else not (effective_latched s i))
    then warn
    else p₂

unfoldable pub highest : ℕ → ℕ → (ℕ → ℕ) → ℕ → ℕ
highest zero i f act = act
highest (suc n) i f act = highest n (i + 1) f (if ltb act (f i) then f i else act)

unfoldable pub get_action : Fault → ℕ
get_action s = highest code_count 0 (action_of s) warn

-- `app_fault_get_blocking_latched`
unfoldable pub get_blocking_latched : Fault → ℕ → Bool
get_blocking_latched s i = effective_latched s i && s.action_mask i

-- Some bit of the map is set.
unfoldable pub any_bit : ℕ → ℕ → (ℕ → Bool) → Bool
any_bit zero i m = false
any_bit (suc n) i m = m i || any_bit n (i + 1) m

-- `fault_eval_state`
unfoldable pub eval_state : Bool → Fault → Fault
eval_state pending s = record s {
  state =
      if get_action s == trip
      then fault
      else if any_bit code_count 0 (effective_latched s) || pending
      then warning
      else normal;
}

-- `fault_snapshot_now` with the reading, if there is one.
abbrev pub snapshot_now : Option Analog → Snap → Snap
snapshot_now none snap = snap
snapshot_now (some v) snap = record snap { values = v }

-- The part of `fault_raise` that runs for a code which is not latched yet.
unfoldable pub latch_code : Option Analog → ℕ → ℕ → Fault → Fault
latch_code reading b oc_fast_raw s =
    let s₁ = record s {
      latched = put s.latched b true;
      event_cnt = put s.event_cnt b (saturate (s.event_cnt b));
    } in
    let s₂ : Fault = elim s.first [
      | some f ↦ s₁
      | none ↦ record s₁ {
        first = some b;
        snap = snapshot_now reading (record (s.snap) { code = some b; oc_fast_raw = oc_fast_raw });
      }
    ] in
    if s.policy b == trip then record s₂ { state = fault } else s₂

-- `fault_raise`; the code 0 only refreshes the snapshot of a state without a first fault.
unfoldable pub raise : Option Analog → Option ℕ → ℕ → Fault → Fault
raise reading none oc_fast_raw s = elim s.first [
  | some f ↦ s
  | none ↦ record s {
    snap = snapshot_now reading (record (s.snap) { code = none; oc_fast_raw = oc_fast_raw });
  }
]
raise reading (some b) oc_fast_raw s =
    let t = record s { active = put s.active b true } in
    if s.latched b then t else latch_code reading b oc_fast_raw t

-- `app_fault_raise` for a code that is not 0.
unfoldable pub app_raise : Option Analog → (ℕ → Bool) → Fault → Fault
app_raise reading code s = raise reading (code_bit code) 0 s

-- `fault_reset_all`, with the encoders' error count; the channels are re-armed beside it.
unfoldable pub reset_all : ℕ → Fault → Fault
reset_all enc_errors s = record s {
  latched = λ i. false;
  active = λ i. false;
  first = none;
  snap = record { code = none; oc_fast_raw = 0; values = zero_analog };
  event_cnt = λ i. 0;
  oc_slow_cnt = λ i. 0;
  vbus_ov_cnt = 0;
  vbus_uv_cnt = 0;
  adc_stall_cnt = 0;
  wdog_hit = λ i. false;
  wdog_locked = λ i. false;
  wdog_rearm_cnt = λ i. 0;
  wdog_rearm_wait = λ i. 0;
  enc_err_last = enc_errors;
  injected = λ i. false;
  ov_trip = false;
  stop_escalated = false;
  stop_request = none;
  state = normal;
}

-- `app_fault_set_policy`, `app_fault_set_actions_enable`, `app_fault_note_stop_rejected`.
unfoldable pub set_policy : (ℕ → Bool) → ℕ → Fault → Fault
set_policy code act s = elim (code_bit code) [
  | none ↦ s
  | some b ↦ eval_state false (rebuild_action_mask (record s { policy = put s.policy b act }))
]

unfoldable pub set_actions_enable : Bool → Fault → Fault
set_actions_enable on s = eval_state false (reload_policy (record s { actions_en = on }))

unfoldable pub note_stop_rejected : Fault → Fault
note_stop_rejected s = eval_state false (record s { stop_escalated = true })

-- `app_fault_take_stop_request`
unfoldable pub take_stop_request : Fault → Option ℕ × Fault
take_stop_request s = (s.stop_request, record s { stop_request = none })

-- A STOP action without a pending request makes one for the code.
unfoldable pub request_stop : ℕ → Fault → Fault
request_stop b s = elim s.stop_request [
  | some r ↦ s
  | none ↦ if get_action s == stop then record s { stop_request = some b } else s
]

unfoldable pub inject_on : Option Analog → ℕ → Fault → Fault
inject_on reading b s =
    let s₁ = record s { injected = put s.injected b true } in
    let s₂ : Fault = elim s.first [
      | some f ↦ s₁
      | none ↦ record s₁ {
        first = some b;
        snap = snapshot_now reading (record (s.snap) { code = some b });
      }
    ] in
    request_stop b s₂

unfoldable pub inject_off : ℕ → Fault → Fault
inject_off b s =
    let s₁ = record s { injected = put s.injected b false } in
    elim s.stop_request [
      | none ↦ s₁
      | some r ↦ if r == b then record s₁ { stop_request = none } else s₁
    ]

-- `app_fault_inject`; `false` is the result -1.
unfoldable pub inject : Option Analog → (ℕ → Bool) → Bool → Fault → Bool × Fault
inject reading code on s = elim (code_bit code) [
  | none ↦ (false, s)
  | some b ↦ (true, eval_state false (if on then inject_on reading b s else inject_off b s))
]
