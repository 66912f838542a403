-- ===== src/Can/Tests.antt =====
-- Runs of the CAN modules, and the theorems at concrete frames, queues and readings.
use mathlib.Core.List.{Perm}
use hpm53m1_g6618motor.Base.{
  ℕ, suc, ◌+◌, ◌-◌, ◌*◌, ◌/◌, ◌≤◌, ◌<◌, ◌≡◌, ◌≢◌, ◌↔◌, refl, Bool, true, false, Option, none, some,
  List, [], ◌∷◌, ◌++◌, arith, ltb, leb, if◌then◌else◌, ◌&&◌, replicate, length, take, drop,
}
use hpm53m1_g6618motor.Float.{FloatOps}
use hpm53m1_g6618motor.Can.Protocol.{
  parse_id, make_id, type_feedback, kind_none, mit, default_scale, success, decode, decode_type,
  decode_command,
}
use hpm53m1_g6618motor.Can.Protocol.Ids.{parse_id-make_id}
use hpm53m1_g6618motor.Can.Protocol.Decode.{type_of, min_len, HasMagic, HasFinite, decode_accepts}
use hpm53m1_g6618motor.Can.Policy.{act_mit, act_release_output, plan}
use hpm53m1_g6618motor.Can.Policy.Safety.{motion_mode, IsMotion, IsFocusable, plan_safe}
use hpm53m1_g6618motor.Can.Service.{
  empty_item, Service, zero_stats, u32, rx_callback, dequeue, rx_isr_hook, elapsed, watchdog_step,
  feed_watchdog, rx_budget,
}
use hpm53m1_g6618motor.Can.Service.Fifo.{
  IsQueue, waiting, contents, stored, rx_callback_appends, dequeue_takes_oldest,
}
use hpm53m1_g6618motor.Can.Service.Watchdog.{
  IsDue, watchdog_step_fires, Event, tick, frame, raised, feeds, raised-le-feeds,
}
use hpm53m1_g6618motor.Can.Service.Execute.{CanEnv}
use hpm53m1_g6618motor.Can.Service.Process.{process_rx}
use hpm53m1_g6618motor.Can.Service.Process.Order.{handle_all, seen, process_rx_in_order}
use hpm53m1_g6618motor.Can.NodeId.{
  read_id, decode_id, in_window, sort_samples, sort_down, insert_down, reverse_onto, inliers_of,
  distance, invalid_id,
}
use hpm53m1_g6618motor.Can.NodeId.Median.{IsSorted, sort_samples_sorts}
use hpm53m1_g6618motor.Can.NodeId.Accept.{IsSupported, read_id_accepts}

-- Arithmetic on patterns, for the runs only.
abbrev toy_floats : FloatOps
toy_floats = record {
  add = λ a b. a + b;
  sub = λ a b. a - b;
  mul = λ a b. a * b;
  div = λ a b. a / b;
  neg = λ a. a;
  lt = ltb;
  le = leb;
  of_uint = λ a. a;
  to_uint = λ a. a;
}

-- The enable frame of node 3.
abbrev enable_bytes : List ℕ
enable_bytes = 0xFC ∷ replicate 7 0

parse_enable : parse_id 0x153 ≡ some (5, 3)
unfolding parse_id
parse_enable = refl

parse_id-make_id_example :
    (parse_id 0x153 ≡ some (5, 3))
    ↔ ((1 ≤ 5) × (5 ≤ type_feedback) × (3 < 16) × (0x153 ≡ make_id 5 3))
parse_id-make_id_example = parse_id-make_id 0x153 5 3

decode_enable : (decode toy_floats 0x153 enable_bytes 8 3 default_scale).0 ≡ success
unfolding decode parse_id decode_type decode_command
decode_enable = refl

-- An enable frame of zeros is refused.
decode_zeros : (decode toy_floats 0x153 (replicate 8 0) 8 3 default_scale).1.kind ≡ kind_none
unfolding decode parse_id decode_type decode_command
decode_zeros = refl

decode_accepts_example :
    let f = (decode toy_floats 0x153 enable_bytes 8 3 default_scale).1 in
    (f.kind ≢ kind_none)
    × (0x153 ≡ make_id (type_of f.kind) 3)
    × (min_len f.kind ≤ 8)
    × HasMagic f.kind 0xFC
    × HasFinite f.kind f
decode_accepts_example =
    decode_accepts toy_floats 0x153 enable_bytes 8 3 default_scale decode_enable

plan_safe_example :
    let a = plan mit 1 true 2 true in
    (IsMotion a → IsFocusable 2 × (◌≡◌ {A = Bool} true true → 1 ≡ motion_mode a))
    × (a ≡ act_mit → ◌≡◌ {A = Bool} true true)
    × (a ≡ act_release_output → IsFocusable 2 × (◌≡◌ {A = Bool} true true))
plan_safe_example = plan_safe mit 1 true 2 true

-- A service of node 3 with one enable frame waiting round the end of its queue.
abbrev idle : Service
idle = record {
  rxq = replicate 32 empty_item;
  rx_head = 31;
  rx_tail = 31;
  node_id = 3;
  timeout_ms = 100;
  cycles_per_ms = 1000;
  initialized = true;
  last_control_cycles = 0;
  wd_armed = true;
  wd_suspended = false;
  wd_fired = false;
  stats = zero_stats;
}

idle-IsQueue : IsQueue idle
idle-IsQueue = omega arith

abbrev loaded : Service
loaded = rx_callback 0x153 8 enable_bytes idle

rx_callback_appends_example :
    IsQueue loaded
    × (waiting idle ≤ 31)
    × (waiting idle < 31 → contents loaded ≡ contents idle ++ stored 0x153 8 enable_bytes idle ∷ [])
    × (waiting idle ≡ 31
        → loaded ≡ record idle {
          stats = record (idle.stats) { rx_dropped = u32 (idle.stats.rx_dropped + 1) };
        })
rx_callback_appends_example = rx_callback_appends 0x153 8 enable_bytes idle idle-IsQueue

loaded-IsQueue : IsQueue loaded
loaded-IsQueue = (rx_callback_appends 0x153 8 enable_bytes idle idle-IsQueue).0

dequeue_takes_oldest_example :
    (loaded.rx_tail ≢ loaded.rx_head
      → contents loaded ≡ (dequeue loaded).0 ∷ contents (dequeue loaded).1)
    × (loaded.rx_tail ≡ loaded.rx_head → contents loaded ≡ [])
    × IsQueue (dequeue loaded).1
dequeue_takes_oldest_example = dequeue_takes_oldest loaded loaded-IsQueue

watchdog_step_fires_example :
    let (s', (raises, stops)) = watchdog_step true 2 200_000 idle in
    ((raises ≡ true) ↔ IsDue 200_000 idle)
    × (s' ≡ (if raises then record idle { wd_fired = true } else idle))
    × ((stops ≡ true) ↔ ((raises ≡ true) × (◌≡◌ {A = Bool} true true) × (◌≡◌ {A = ℕ} 2 2)))
    × ((raises && (watchdog_step true 2 300_000 s').1.0) ≡ false)
    × ((watchdog_step true 2 300_000 (feed_watchdog 300_000 s')).1.0 ≡ false)
watchdog_step_fires_example = watchdog_step_fires true 2 200_000 300_000 idle (omega arith)

-- Two losses of the host, with one frame between them.
abbrev losses : List Event
losses =
    tick true 2 200_000
    ∷ tick true 2 300_000
    ∷ frame 300_100 0x153
    ∷ tick true 2 500_000
    ∷ tick true 2 600_000
    ∷ []

raised-losses : raised losses idle ≡ 2
unfolding raised watchdog_step elapsed rx_isr_hook parse_id
raised-losses = refl

raised-le-feeds_example : raised losses idle ≤ 1 + feeds 3 losses
raised-le-feeds_example = raised-le-feeds losses idle

-- A world that counts the calls made.
abbrev counting : CanEnv
counting = record {
  World = ℕ;
  params = λ w. record {
    kt_nm_per_a = 1;
    reducer_ratio = 1;
    i_peak_10s_a = 1;
    mit_enable = true;
    mit_kp_max = 1;
    mit_kd_max = 1;
  };
  snapshot = λ w. record {
    active = false;
    mode = 0;
    feedback_valid = true;
    calibrated = true;
    continuous_valid = true;
    output_direction = 1;
    shaft_rad = 0;
    shaft_continuous_rad = 0;
    speed_rad_s = 0;
  };
  foc_state = λ w. 1;
  latched = λ w. 0;
  i_q_a = λ w. 0;
  ntc_temp_c = λ w ch. none;
  foc_enable = λ w. (true, suc w);
  motion_stop = λ w. (true, suc w);
  motion_release_output = λ w. suc w;
  fault_clear = λ w. (true, suc w);
  motion_mit = λ w a b c d e. (true, suc w);
  motion_position_limited = λ w a b c d. (true, suc w);
  motion_speed = λ w v. (true, suc w);
  can_send_std = λ w id bytes. (true, suc w);
  wrap_pm_pi = λ x. x;
  wrap_2pi = λ x. x;
}

process_rx_in_order_example :
    let (s', w') = process_rx toy_floats counting loaded 0 in
    (contents s' ≡ drop rx_budget (contents loaded))
    × ((s'.stats, w')
        ≡ handle_all toy_floats counting
            (take rx_budget (contents loaded))
            loaded.node_id
            true
            loaded.stats
            0)
    × (seen s'.stats ≡ u32 (seen loaded.stats + length (take rx_budget (contents loaded))))
    × IsQueue s'
process_rx_in_order_example = process_rx_in_order toy_floats counting loaded 0 loaded-IsQueue

-- Nine readings of the switch position 100, one of them an outlier and one missing.
abbrev readings : List (Option ℕ)
readings =
    some 11733
    ∷ some 11740
    ∷ some 500
    ∷ some 11720
    ∷ none
    ∷ some 11731
    ∷ some 11729
    ∷ some 11735
    ∷ some 11738
    ∷ []

read_readings : read_id readings ≡ record { raw = 11733; spread = 20; id = 4 }
unfolding read_id in_window sort_samples sort_down insert_down reverse_onto inliers_of distance
    decode_id
read_readings = refl

read_known : (read_id readings).id ≢ invalid_id
unfolding read_id in_window sort_samples sort_down insert_down reverse_onto inliers_of distance
    decode_id
read_known = omega arith

sort_samples_sorts_example :
    IsSorted (sort_samples (3 ∷ 1 ∷ 2 ∷ [])) × Perm (sort_samples (3 ∷ 1 ∷ 2 ∷ [])) (3 ∷ 1 ∷ 2 ∷ [])
sort_samples_sorts_example = sort_samples_sorts (3 ∷ 1 ∷ 2 ∷ [])

read_id_accepts_example :
    let r = read_id readings in
    (r.id < 8)
    × (r.id ≡ decode_id r.raw)
    × (100 < r.raw)
    × (r.raw ≤ 65000)
    × ((kept : List ℕ) × (left_out : List ℕ) × IsSupported readings r kept left_out)
read_id_accepts_example = read_id_accepts readings read_known
