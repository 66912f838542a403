-- ===== src/Fault/Tick.antt =====
-- The 1 kHz protection tick, the recheck of the conditions and the clearing of the faults
-- (app_fault.c, `app_fault_tick`, `fault_conditions_ok`, `app_fault_clear`).
use hpm53m1_g6618motor.Base.{
  ℕ, ◌+◌, ◌-◌, ◌%◌, Bool, true, false, not, ◌&&◌, ◌||◌, Option, none, some, ltb, leb, ◌==◌,
  if◌then◌else◌,
}
use hpm53m1_g6618motor.Float.{finite}
use hpm53m1_g6618motor.Fault.{
  Fault, Analog, put, saturate, raise, eval_state, reset_all, request_stop, get_policy, vbus_ov,
  vbus_uv, adc_timeout, enc_read, stop,
}

-- What the tick reads of the other modules: the analog values, the RMS of each phase, the bus voltage
-- of the fast channel and of the cache, the ADC's frame counter and raw codes, and the sum of the
-- encoders' error counts.
pub record Sensors : Type 0 where
  pub analog : Option Analog
  pub rms : ℕ → ℕ
  pub vbus_fast : ℕ
  pub vbus_cached : ℕ
  pub sequence : ℕ
  pub raw : ℕ → Option ℕ
  pub enc_errors : ℕ

abbrev pub settle_limit : ℕ
settle_limit = 50

-- The raw code of a phase lies inside the window.
unfoldable pub raw_inside : Fault → Option ℕ → Bool
raw_inside s none = false
raw_inside s (some raw) = leb raw s.config.thshd_high && leb s.config.thshd_low raw

module _ (lt : ℕ → ℕ → Bool) (io : Sensors) where
  -- One phase of the L2 check; the flag collects `pending`.
  unfoldable pub check_rms : ℕ → Fault × Bool → Fault × Bool
  check_rms i (s, pending) =
      let cnt = if lt s.config.oc_slow_a (io.rms i) then saturate (s.oc_slow_cnt i) else 0 in
      let t = record s { oc_slow_cnt = put s.oc_slow_cnt i cnt } in
      if leb s.config.slow_debounce cnt
      then (raise io.analog (some (3 + i)) 0 t, pending)
      else (t, pending || ltb 0 cnt)

  unfoldable pub bus_voltage : ℕ
  bus_voltage = if finite io.vbus_fast then io.vbus_fast else io.vbus_cached

  -- The counters of L3.
  unfoldable pub count_vbus : Fault → Fault
  count_vbus s = record s {
    ov_trip = lt s.config.vbus_ov_trip_v bus_voltage && leb stop (get_policy s (some vbus_ov));
    vbus_ov_cnt = if lt s.config.vbus_ov_v bus_voltage then saturate s.vbus_ov_cnt else 0;
    vbus_uv_cnt = if lt bus_voltage s.config.vbus_uv_v then saturate s.vbus_uv_cnt else 0;
  }

  unfoldable pub check_ov : Fault × Bool → Fault × Bool
  check_ov (s, pending) =
      if leb s.config.vbus_ov_ms s.vbus_ov_cnt || s.ov_trip
      then (request_stop vbus_ov (raise io.analog (some vbus_ov) 0 s), pending)
      else (s, pending || ltb 0 s.vbus_ov_cnt)

  unfoldable pub check_uv : Fault × Bool → Fault × Bool
  check_uv (s, pending) =
      if leb s.config.vbus_uv_ms s.vbus_uv_cnt
      then (request_stop vbus_uv (raise io.analog (some vbus_uv) 0 s), pending)
      else (s, pending || ltb 0 s.vbus_uv_cnt)

  unfoldable pub check_adc : Fault → Fault
  check_adc s =
      let t =
        if io.sequence == s.seq_last
        then record s { adc_stall_cnt = saturate s.adc_stall_cnt }
        else record s { seq_last = io.sequence; adc_stall_cnt = 0 } in
      if ltb t.config.adc_stall_ms t.adc_stall_cnt
      then raise io.analog (some adc_timeout) 0 t
      else t

  unfoldable pub check_encoders : Fault → Fault
  check_encoders s =
      if leb s.config.enc_err_delta ((io.enc_errors + 4294967296 - s.enc_err_last) % 4294967296)
      then raise io.analog (some enc_read) 0 (record s { enc_err_last = io.enc_errors })
      else s

  -- The codes whose condition has gone leave `active`.
  unfoldable pub recovered : Fault → ℕ → Bool
  recovered s i =
      (ltb i 3 && raw_inside s (io.raw i))
      || (leb 3 i && ltb i 6 && s.oc_slow_cnt (i - 3) == 0)
      || (i == vbus_ov && s.vbus_ov_cnt == 0)
      || (i == vbus_uv && s.vbus_uv_cnt == 0)
      || (i == adc_timeout && s.adc_stall_cnt == 0)

  unfoldable pub recover : Fault → Fault
  recover s = record s {
    active = λ i. if recovered s i then false else s.active i;
    stop_escalated =
        if s.vbus_ov_cnt == 0 && s.vbus_uv_cnt == 0 && not s.ov_trip
        then false
        else s.stop_escalated;
  }

  -- The checks of a tick in their order, with `pending`.
  unfoldable pub checks : Fault → Fault × Bool
  checks s =
      let (s₁, p₁) = check_rms 2 (check_rms 1 (check_rms 0 (s, false))) in
      let (s₂, p₂) = check_uv (check_ov (count_vbus s₁, p₁)) in
      (recover (check_encoders (check_adc s₂)), p₂)

  -- `app_fault_tick`
  unfoldable pub tick : Fault → Fault
  tick s =
      if not s.ready
      then s
      else if ltb s.settle_ticks settle_limit
      then record s { settle_ticks = s.settle_ticks + 1; seq_last = io.sequence }
      else let (t, pending) = checks s in eval_state pending t

  -- `fault_conditions_ok`
  unfoldable pub bus_ok : Fault → Option Analog → Bool
  bus_ok s none = true
  bus_ok s (some v) = not (lt s.config.vbus_ov_v v.v_bus_v || lt v.v_bus_v s.config.vbus_uv_v)

  unfoldable pub conditions_ok : Fault → Bool
  conditions_ok s =
      bus_ok s io.analog
      && not (lt s.config.oc_slow_a (io.rms 0))
      && not (lt s.config.oc_slow_a (io.rms 1))
      && not (lt s.config.oc_slow_a (io.rms 2))
      && raw_inside s (io.raw 0)
      && raw_inside s (io.raw 1)
      && raw_inside s (io.raw 2)

  -- `app_fault_clear`; `false` is the result -1.
  unfoldable pub clear : Fault → Bool × Fault
  clear s =
      if not s.ready
      then (false, s)
      else if conditions_ok s
      then (true, reset_all io.enc_errors s)
      else (false, s)
