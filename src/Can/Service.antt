-- ===== src/Can/Service.antt =====
-- The state of the CAN service, its receive queue and its watchdog (app_can_service.c). The interrupt
-- hook and the task share the state; each function is one step on it.
pub mod Fifo
pub mod Watchdog
pub mod Execute
pub mod Process
use hpm53m1_g6618motor.Base.{
  ℕ, zero, suc, ◌+◌, ◌-◌, ◌*◌, ◌/◌, ◌%◌, Bool, true, false, not, ◌&&◌, ◌||◌, Option, none, some,
  List, ◌++◌, ltb, leb, ◌==◌, if◌then◌else◌, set, get_or, take, drop, replicate,
}
use hpm53m1_g6618motor.Can.Protocol.{parse_id, type_clear}

-- `CAN_RX_QUEUE_SIZE` and `CAN_RX_BUDGET_PER_STEP`.
abbrev pub queue_size : ℕ
queue_size = 32

abbrev pub rx_budget : ℕ
rx_budget = 8

-- `can_rx_item_t`
pub record Item : Type 0 where
  pub id : ℕ
  pub len : ℕ
  pub bytes : List ℕ

abbrev pub empty_item : Item
empty_item = record { id = 0; len = 0; bytes = replicate 8 0 }

-- `app_can_service_stats_t`
pub record Stats : Type 0 where
  pub rx_frames : ℕ
  pub rx_dropped : ℕ
  pub bad_frames : ℕ
  pub foreign_frames : ℕ
  pub mode_switch : ℕ
  pub rejected : ℕ
  pub tx_fail : ℕ

abbrev pub zero_stats : Stats
zero_stats = record {
  rx_frames = 0;
  rx_dropped = 0;
  bad_frames = 0;
  foreign_frames = 0;
  mode_switch = 0;
  rejected = 0;
  tx_fail = 0;
}

-- The static variables.
pub record Service : Type 0 where
  pub rxq : List Item
  pub rx_head : ℕ
  pub rx_tail : ℕ
  pub node_id : ℕ
  pub timeout_ms : ℕ
  pub cycles_per_ms : ℕ
  pub initialized : Bool
  pub last_control_cycles : ℕ
  pub wd_armed : Bool
  pub wd_suspended : Bool
  pub wd_fired : Bool
  pub stats : Stats

-- `uint32_t` counters wrap.
abbrev pub u32 : ℕ → ℕ
u32 n = n % 4294967296

-- The bytes that `memcpy` of `len` bytes leaves in the buffer of an item.
abbrev pub overwrite : ℕ → List ℕ → List ℕ → List ℕ
overwrite len new old = take len new ++ drop len old

-- `can_rx_callback` for a message with the given identifier, DLC and data.
unfoldable pub rx_callback : ℕ → ℕ → List ℕ → Service → Service
rx_callback id dlc bytes s =
    let next = (s.rx_head + 1) % queue_size in
    let len = if ltb 8 dlc then 8 else dlc in
    let old = get_or s.rxq s.rx_head empty_item in
    if next == s.rx_tail
    then record s { stats = record (s.stats) { rx_dropped = u32 (s.stats.rx_dropped + 1) } }
    else record s {
      rxq =
          set s.rxq s.rx_head
            (record { id = id; len = len; bytes = overwrite len bytes old.bytes });
      rx_head = next;
    }

-- The item that a round of `can_process_rx` takes, and the queue without it.
unfoldable pub dequeue : Service → Item × Service
dequeue s = (get_or s.rxq s.rx_tail empty_item, record s { rx_tail = (s.rx_tail + 1) % queue_size })

unfoldable pub flush_rx : Service → Service
flush_rx s = record s { rx_tail = s.rx_head }

-- `app_can_service_feed_watchdog` at a reading of the cycle counter.
unfoldable pub feed_watchdog : ℕ → Service → Service
feed_watchdog now s = record s { last_control_cycles = now; wd_armed = true; wd_fired = false }

-- `can_rx_isr_hook` at a reading of the cycle counter.
unfoldable pub rx_isr_hook : ℕ → ℕ → Service → Service
rx_isr_hook now id s = elim (parse_id id) [
  | none ↦ s
  | some (type, node) ↦
      if not (node == s.node_id)
      then s
      else if leb type type_clear
      then record s { last_control_cycles = now; wd_armed = true; wd_fired = false }
      else s
]

unfoldable pub suspend_watchdog : Bool → Service → Service
suspend_watchdog suspend s = record s { wd_suspended = suspend }

-- `(uint32_t)(intf_clock_get_cycle() - s_last_control_cycles)`
unfoldable pub elapsed : ℕ → Service → ℕ
elapsed now s = u32 (now + 4294967296 - s.last_control_cycles)

-- `APP_FLT_ACT_STOP`
abbrev pub policy_stop : ℕ
policy_stop = 2

-- `can_watchdog_step`, where the protection actions are enabled or not and the policy of
-- `APP_FAULT_COMM_TIMEOUT` is the given one: the new state, whether it raises that fault, and whether it
-- then asks the FOC for a controlled stop.
unfoldable pub watchdog_step : Bool → ℕ → ℕ → Service → Service × (Bool × Bool)
watchdog_step actions_enabled policy now s =
    let timeout_cycles = u32 (s.timeout_ms * s.cycles_per_ms) in
    if s.wd_suspended || not s.wd_armed || s.timeout_ms == 0
    then (s, (false, false))
    else if leb (elapsed now s) timeout_cycles || s.wd_fired
    then (s, (false, false))
    else (record s { wd_fired = true }, (true, actions_enabled && policy == policy_stop))

-- `app_can_service_init` with the configured timeout, the CPU frequency and the cycle counter; the
-- platform's queue is drained by then.
unfoldable pub init : ℕ → ℕ → ℕ → ℕ → Service → Service
init node_id comm_timeout_ms cpu_freq now s = record s {
  node_id = if ltb 15 node_id then 1 else node_id;
  timeout_ms = comm_timeout_ms;
  cycles_per_ms = cpu_freq / 1000;
  rx_head = 0;
  rx_tail = 0;
  wd_armed = false;
  wd_suspended = false;
  wd_fired = false;
  stats = zero_stats;
  last_control_cycles = now;
  initialized = true;
}
