-- ===== src/Can/Transport/Tests.antt =====
-- The CAN platform layer in front of the queue of the CAN service, on a run of three events.
use hpm53m1_g6618motor.Base.{
  ℕ, suc, ◌≡◌, refl, true, false, List, [], ◌∷◌, replicate, arith, some, ◌+◌,
}
use hpm53m1_g6618motor.Can.Service.{empty_item, Service, rx_callback}
use hpm53m1_g6618motor.Can.Transport.{
  Frame, Message, Transport, empty_message, zero_stats, ring_size, poll,
}
use hpm53m1_g6618motor.Can.Transport.Fifo.{IsRing, contents}
use hpm53m1_g6618motor.Can.Transport.Drain.{deliver, poll_drains}
use hpm53m1_g6618motor.Can.Transport.History.{Event, irq, round, run, queue_run, run_refines_queue}

abbrev started : Transport
started = record {
  has_callback = true;
  has_hook = true;
  initialized = true;
  buf = λ i. empty_message;
  head = 15;
  tail = 15;
  count = 0;
  stats = zero_stats;
  filter_index = 0;
}

abbrev service : Service
service = record {
  rxq = replicate 32 empty_item;
  rx_head = 0;
  rx_tail = 0;
  node_id = 3;
  timeout_ms = 100;
  cycles_per_ms = 1000;
  initialized = true;
  last_control_cycles = 0;
  wd_armed = true;
  wd_suspended = false;
  wd_fired = false;
  stats = record {
    rx_frames = 0;
    rx_dropped = 0;
    bad_frames = 0;
    foreign_frames = 0;
    mode_switch = 0;
    rejected = 0;
    tx_fail = 0;
  };
}

-- The callback that the service sets, and a hook that counts.
abbrev to_service : Message → Service → Service
to_service m s = rx_callback m.id m.dlc m.bytes s

abbrev counting : Message → ℕ → ℕ
counting m n = suc n

abbrev frame : ℕ → Frame
frame id = record { id = id; is_ext_id = false; dlc = 1; bytes = 7 ∷ []; timestamp = 0 }

-- Two frames in an interrupt, a round of the poll, and an interrupt with one frame more.
abbrev events : List Event
events = irq 1 (frame 3 ∷ frame 259 ∷ []) ∷ round ∷ irq 1 (frame 4 ∷ []) ∷ []

started-IsRing : IsRing started
started-IsRing = record { tail_in = omega arith; count_in = omega arith; head_at = refl }

run_refines_queue_example :
    let (s', (h', k')) = run counting to_service events (started, (0, service)) in
    IsRing s'
    × (s'.has_callback ≡ true)
    × ((contents s', k') ≡ queue_run to_service events (contents started, service))
run_refines_queue_example =
    run_refines_queue counting to_service events started 0 service started-IsRing refl

-- Two messages across the end of the array, and the poll that follows.
abbrev message : ℕ → Message
message id = record empty_message { id = id; dlc = 1; bytes = 7 ∷ [] }

abbrev waiting : Transport
waiting = record started { buf = λ i. message (240 + i); head = 1; tail = 15; count = 2 }

waiting-IsRing : IsRing waiting
waiting-IsRing = record { tail_in = omega arith; count_in = omega arith; head_at = refl }

poll_drains_example :
    (s' : Transport) × (poll to_service (suc ring_size) (waiting, service)
      ≡ some (s', deliver to_service (contents waiting) service))
    × IsRing s'
    × (contents s' ≡ [])
poll_drains_example = poll_drains to_service waiting service waiting-IsRing refl
