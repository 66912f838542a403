-- ===== src/Can/Transport.antt =====
-- The CAN platform layer (App/Platform/Src/app_can.c): the ring between the interrupt and the task,
-- and its statistics. A critical section is one step on the state; the callback and the hook of the
-- interrupt are parameters with a state of their own.
pub mod Setup
pub mod Fifo
pub mod History
pub mod Drain
mod Tests
use Prim.Native.Nat.{bit_and}
use hpm53m1_g6618motor.Base.{
  ℕ, zero, suc, ◌+◌, ◌-◌, ◌*◌, ◌%◌, Bool, true, false, not, ◌&&◌, ◌||◌, Option, none, some, List,
  [], ◌∷◌, ◌++◌, ltb, leb, ◌==◌, if◌then◌else◌, take, replicate,
}

-- `APP_CAN_RX_BUF_SIZE`
abbrev pub ring_size : ℕ
ring_size = 16

-- `intf_can_frame_t`, as far as the layer reads or sets it, and `app_can_msg_t`.
pub record Frame : Type 0 where
  pub id : ℕ
  pub is_ext_id : Bool
  pub dlc : ℕ
  pub bytes : List ℕ
  pub timestamp : ℕ

pub record Message : Type 0 where
  pub id : ℕ
  pub is_ext_id : Bool
  pub dlc : ℕ
  pub bytes : List ℕ
  pub timestamp : ℕ

abbrev pub empty_message : Message
empty_message = record { id = 0; is_ext_id = false; dlc = 0; bytes = replicate 64 0; timestamp = 0 }

-- `intf_can_status_t`
pub record BusStatus : Type 0 where
  pub tx_error_count : ℕ
  pub rx_error_count : ℕ
  pub last_error_code : ℕ
  pub activity : ℕ
  pub bus_off : Bool
  pub error_warning : Bool
  pub error_passive : Bool
  pub protocol_exception : Bool

abbrev pub zero_status : BusStatus
zero_status = record {
  tx_error_count = 0;
  rx_error_count = 0;
  last_error_code = 0;
  activity = 0;
  bus_off = false;
  error_warning = false;
  error_passive = false;
  protocol_exception = false;
}

-- `app_can_stats_t`
pub record Stats : Type 0 where
  pub rx_count : ℕ
  pub rx_irq_count : ℕ
  pub rx_drop_count : ℕ
  pub rx_overflow_count : ℕ
  pub rx_fifo_full_count : ℕ
  pub rx_fifo_lost_count : ℕ
  pub tx_enqueue_ok_count : ℕ
  pub tx_ok_count : ℕ
  pub tx_fail_count : ℕ
  pub bus_off_count : ℕ
  pub error_warning_count : ℕ
  pub error_passive_count : ℕ
  pub protocol_error_count : ℕ
  pub ram_access_fail_count : ℕ
  pub last_event_flags : ℕ
  pub last_rx_id : ℕ
  pub last_rx_dlc : ℕ
  pub last_tx_ret : ℕ
  pub rx_pending_count : ℕ
  pub last_status : BusStatus

abbrev pub zero_stats : Stats
zero_stats = record {
  rx_count = 0;
  rx_irq_count = 0;
  rx_drop_count = 0;
  rx_overflow_count = 0;
  rx_fifo_full_count = 0;
  rx_fifo_lost_count = 0;
  tx_enqueue_ok_count = 0;
  tx_ok_count = 0;
  tx_fail_count = 0;
  bus_off_count = 0;
  error_warning_count = 0;
  error_passive_count = 0;
  protocol_error_count = 0;
  ram_access_fail_count = 0;
  last_event_flags = 0;
  last_rx_id = 0;
  last_rx_dlc = 0;
  last_tx_ret = 0;
  rx_pending_count = 0;
  last_status = zero_status;
}

-- The static variables; `has_callback` and `has_hook` say whether the two pointers are set.
pub record Transport : Type 0 where
  pub has_callback : Bool
  pub has_hook : Bool
  pub initialized : Bool
  pub buf : ℕ → Message
  pub head : ℕ
  pub tail : ℕ
  pub count : ℕ
  pub stats : Stats
  pub filter_index : ℕ

-- A counter of `uint32_t`.
abbrev pub next : ℕ → ℕ
next n = (n + 1) % 4294967296

-- Whether a bit of the event flags is set.
abbrev pub flagged : ℕ → ℕ → Bool
flagged flags mask = not (bit_and flags mask == 0)

abbrev pub rx_fifo0_new_msg : ℕ
rx_fifo0_new_msg = 1

abbrev pub event_bus_off : ℕ
event_bus_off = 8192

-- `app_can_note_event_flags`
unfoldable pub note_event_flags : ℕ → Stats → Stats
note_event_flags flags s = record s {
  last_event_flags = flags;
  rx_fifo_full_count = if flagged flags 8 then next s.rx_fifo_full_count else s.rx_fifo_full_count;
  rx_fifo_lost_count = if flagged flags 32 then next s.rx_fifo_lost_count else s.rx_fifo_lost_count;
  tx_ok_count = if flagged flags 128 then next s.tx_ok_count else s.tx_ok_count;
  bus_off_count = if flagged flags event_bus_off then next s.bus_off_count else s.bus_off_count;
  error_warning_count =
      if flagged flags 16384 then next s.error_warning_count else s.error_warning_count;
  error_passive_count =
      if flagged flags 32768 then next s.error_passive_count else s.error_passive_count;
  protocol_error_count =
      if flagged flags 65536 then next s.protocol_error_count else s.protocol_error_count;
  ram_access_fail_count =
      if flagged flags 1048576 then next s.ram_access_fail_count else s.ram_access_fail_count;
}

-- The message that the interrupt copies out of a frame.
unfoldable pub message_of : Frame → Message
message_of f = record {
  id = f.id;
  is_ext_id = f.is_ext_id;
  dlc = f.dlc;
  bytes = take f.dlc f.bytes ++ replicate (64 - f.dlc) 0;
  timestamp = f.timestamp;
}

-- `app_can_ring_pop_locked`
unfoldable pub ring_pop : Transport → Option Message × Transport
ring_pop s = if s.count == 0 then (none, s) else (
  some (s.buf s.tail),
  record s { tail = (s.tail + 1) % ring_size; count = (s.count + 255) % 256 },
)

-- The end of a round of the interrupt's loop: the message goes into the ring, or is dropped.
unfoldable pub ring_push : Message → Transport → Transport
ring_push m s =
    if ltb s.count ring_size
    then record s {
      buf = λ i. if i == s.head then m else s.buf i;
      head = (s.head + 1) % ring_size;
      count = (s.count + 1) % 256;
    }
    else record s {
      stats = record (s.stats) {
        rx_drop_count = next s.stats.rx_drop_count;
        rx_overflow_count = next s.stats.rx_overflow_count;
      };
    }

module _ {H : Type 0} (hook : Message → H → H) where
  -- A round of the interrupt's loop, on a frame that the driver handed over.
  unfoldable pub take_frame : Frame → Transport × H → Transport × H
  take_frame f (s, h) =
      let m = message_of f in
      let counted = record s {
        stats = record (s.stats) {
          rx_count = next s.stats.rx_count;
          last_rx_id = m.id;
          last_rx_dlc = m.dlc;
        };
      } in
      (ring_push m counted, if s.has_hook then hook m h else h)

  -- The loop, over the frames that the driver hands over before it answers that there is none.
  unfoldable pub take_frames : List Frame → Transport × H → Transport × H
  take_frames [] t = t
  take_frames (f ∷ rest) t = take_frames rest (take_frame f t)

  -- `can_irq_handler`
  unfoldable pub irq_handler : ℕ → List Frame → Transport × H → Transport × H
  irq_handler flags frames (s, h) =
      let noted = record s {
        stats =
            note_event_flags flags (record (s.stats) { rx_irq_count = next s.stats.rx_irq_count });
      } in
      let (s', h') =
        if flagged flags rx_fifo0_new_msg then take_frames frames (noted, h) else (noted, h) in
      (if flagged flags event_bus_off then record s' { count = 0; head = 0; tail = 0 } else s', h')

module _ {K : Type 0} (callback : Message → K → K) where
  -- A round of the loop of `app_can_poll`; `none` is its return.
  unfoldable pub poll_round : Transport × K → Option (Transport × K)
  poll_round (s, k) =
      let (popped, s') = ring_pop s in
      if not s.has_callback
      then none
      else elim popped [ none ↦ none | some m ↦ some (s', callback m k) ]

  -- `app_can_poll` with no interrupt between its rounds, on fuel.
  unfoldable pub poll : ℕ → Transport × K → Option (Transport × K)
  poll zero t = none
  poll (suc n) t = elim (poll_round t) [ none ↦ some t | some t' ↦ poll n t' ]

-- `app_can_receive` with a buffer that is not NULL.
unfoldable pub receive : Transport → Option Message × Transport
receive s = if not s.initialized then (none, s) else ring_pop s
