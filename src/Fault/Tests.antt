-- ===== src/Fault/Tests.antt =====
-- Runs of the fault module, and its theorems at concrete states and histories.
use hpm53m1_g6618motor.Base.{
  ℕ, ◌+◌, ◌≤◌, ◌<◌, ◌≡◌, ◌↔◌, refl, Bool, true, false, none, some, List, [], ◌∷◌, ltb, ◌==◌, ◌&&◌,
  ◌||◌, arith,
}
use hpm53m1_g6618motor.Fault.{
  Fault, Config, normal, fault, warn, zero_analog, policy_design, code_count, eval_state,
  get_action, get_blocking_latched, stop, trip, action_of, highest, put, raise, latch_code,
}
use hpm53m1_g6618motor.Fault.Action.{IsConfigured, Trips, eval_state_faults}
use hpm53m1_g6618motor.Fault.Blocking.{run_views_agree}
use hpm53m1_g6618motor.Fault.Advance.{IsCounted}
use hpm53m1_g6618motor.Fault.Tick.{Sensors, clear, conditions_ok, bus_ok, raw_inside}
use hpm53m1_g6618motor.Fault.Wdog.{on_wdog, service_phase, wdog_service}
use hpm53m1_g6618motor.Fault.History.{
  Event, ticked, wdog_fired, wdog_serviced, raised, cleared, actions_set, policy_set, IsMonitored,
  apply, run, run_keeps, run-IsCounted, run-IsMonitored,
}
use hpm53m1_g6618motor.Fault.Rearm.{
  Round, interrupt, service, rearmings, rearmings_of, rearmings_of-le,
}
use hpm53m1_g6618motor.Fault.Clear.{Clears, clear_only_safe}

abbrev limits : Config
limits = record {
  oc_slow_a = 20;
  vbus_ov_v = 56;
  vbus_uv_v = 18;
  vbus_ov_trip_v = 60;
  slow_debounce = 5;
  adc_stall_ms = 5;
  enc_err_delta = 20;
  thshd_high = 4000;
  thshd_low = 100;
  vbus_ov_ms = 5;
  vbus_uv_ms = 5;
  rearm_ticks = 2;
  rearm_max = 3;
}

-- A machine that is ready, with nothing recorded.
abbrev fresh : (ℕ → ℕ) → Bool → Fault
fresh policy actions_en = record {
  config = limits;
  ready = true;
  state = normal;
  active = λ i. false;
  latched = λ i. false;
  injected = λ i. false;
  first = none;
  snap = record { code = none; oc_fast_raw = 0; values = zero_analog };
  event_cnt = λ i. 0;
  oc_slow_cnt = λ i. 0;
  vbus_ov_cnt = 0;
  vbus_uv_cnt = 0;
  adc_stall_cnt = 0;
  settle_ticks = 50;
  enc_err_last = 0;
  seq_last = 0;
  wdog_hit = λ i. false;
  wdog_locked = λ i. false;
  wdog_rearm_cnt = λ i. 0;
  wdog_rearm_wait = λ i. 0;
  ov_trip = false;
  stop_escalated = false;
  stop_request = none;
  policy = policy;
  action_mask = λ i. ltb i code_count && (policy i == stop || policy i == trip);
  actions_en = actions_en;
  derate_scale = 0x3F000000;
}

abbrev calm : Sensors
calm = record {
  analog = some (record { i_u_a = 1; i_v_a = 1; i_w_a = 1; v_bus_v = 48 });
  rms = λ i. 1;
  vbus_fast = 48;
  vbus_cached = 48;
  sequence = 7;
  raw = λ i. some 2048;
  enc_errors = 0;
}

-- The fast overcurrent of phase 1 latched.
abbrev tripped : Fault
tripped = record (fresh policy_design true) {
  latched = put (λ i. false) 1 true;
  event_cnt = λ i. 1;
  first = some 1;
}

policy_design-le : IsConfigured tripped
policy_design-le i = ground arith

eval_state-tripped : (eval_state false tripped).state ≡ fault
unfolding eval_state get_action highest action_of
eval_state-tripped = refl

eval_state_faults_example :
    ((eval_state false tripped).state ≡ fault) ↔ ((i : ℕ) × ((i < code_count) × Trips tripped i))
eval_state_faults_example = eval_state_faults false tripped policy_design-le

-- An overcurrent interrupt, a round of the service and a raised code.
abbrev history : List Event
history =
    wdog_fired calm 0 4095 ∷ wdog_serviced calm ∷ raised none (λ i. i == 10) ∷ ticked calm ∷ []

run_faults : (run ltb (wdog_fired calm 0 4095 ∷ []) (fresh policy_design true)).state ≡ fault
unfolding run apply on_wdog raise latch_code
run_faults = refl

run_keeps_example :
    ((i : ℕ) → tripped.latched i ≡ true → (run ltb history tripped).latched i ≡ true)
    × ((f : ℕ) → tripped.first ≡ some f → (run ltb history tripped).first ≡ some f)
run_keeps_example = run_keeps ltb history tripped (tt, (tt, (tt, (tt, tt))))

tripped-IsCounted : IsCounted tripped
tripped-IsCounted i h = (omega arith, ground arith)

run-IsCounted_example : IsCounted (run ltb (cleared calm ∷ history) tripped)
run-IsCounted_example = run-IsCounted ltb (cleared calm ∷ history) tripped tripped-IsCounted

run-IsMonitored_example :
    let t = run ltb history (fresh (λ i. warn) false) in IsMonitored t × (get_action t ≡ warn)
run-IsMonitored_example =
    run-IsMonitored ltb history (fresh (λ i. warn) false) (tt, (tt, (tt, (tt, tt))))
      (λ i. refl, ground arith, refl)

-- A hit, two rounds of waiting and the re-arming.
abbrev rounds : List Round
rounds = interrupt calm 1 4095 ∷ service calm ∷ service calm ∷ service calm ∷ []

rearmings_of-rounds : rearmings_of 1 rounds (fresh policy_design true) ≡ 1
unfolding rearmings_of rearmings on_wdog raise latch_code wdog_service service_phase raw_inside
rearmings_of-rounds = refl

rearmings_of-le_example : 0 + rearmings_of 1 rounds (fresh policy_design true) ≤ 3
rearmings_of-le_example =
    rearmings_of-le 1 rounds (fresh policy_design true) (omega arith) (omega arith)

clear-tripped : (clear ltb calm tripped).0 ≡ true
unfolding clear conditions_ok bus_ok raw_inside
clear-tripped = refl

clear_only_safe_example : Clears ltb calm tripped (clear ltb calm tripped)
clear_only_safe_example = clear_only_safe ltb calm tripped

-- The actions are switched off and on again, and one policy is changed.
abbrev settings : List Event
settings =
    actions_set false
    ∷ actions_set true
    ∷ policy_set (λ i. i == 9) 2
    ∷ raised none (λ i. i == 9)
    ∷ []

run_views_agree_example :
    let t = run ltb settings tripped in
    (stop ≤ get_action t) ↔ ((i : ℕ) × ((i < code_count) × (get_blocking_latched t i ≡ true)))
run_views_agree_example =
    run_views_agree ltb settings tripped (tt, (tt, (omega arith, (tt, tt)))) (λ i. refl)
      policy_design-le
