-- ===== src/Fault/Events.antt =====
-- The operations of the fault module in any order, and what a history of them keeps.
use hpm53m1_g6618motor.Base.{
  ℕ, ◌+◌, ◌-◌, refl, Bool, true, false, not, ◌||◌, Option, none, some, [], ◌∷◌, ltb, leb, ◌==◌,
  if◌then◌else◌,
}
use hpm53m1_g6618motor.Fault.{
  Fault, Analog, raise, app_raise, inject, inject_on, inject_off, note_stop_rejected,
  take_stop_request, eval_state, code_bit, vbus_ov, vbus_uv, adc_timeout, enc_read, put, saturate,
}
use hpm53m1_g6618motor.Fault.Tick.{
  Sensors, check_rms, count_vbus, check_ov, check_uv, check_adc, check_encoders, recover, checks,
  tick, settle_limit, raw_inside,
}
use hpm53m1_g6618motor.Fault.Wdog.{on_wdog, service_phase, wdog_service}
use hpm53m1_g6618motor.Fault.Advance.{
  Advances, stays, then-Advances, untouched, either-Advances, raise-Advances, refresh-Advances,
  request_stop-Advances, eval_state-Advances, inject_on-Advances, inject_off-Advances,
}

either-Advances_pair :
    {A : Type 0} (s : Fault) (t u : Fault × A) (c : Bool)
    → Advances s t.0
    → Advances s u.0
    → Advances s (if c then t else u).0
either-Advances_pair s t u true a b = a
either-Advances_pair s t u false a b = b

module _ (lt : ℕ → ℕ → Bool) (io : Sensors) where
  check_rms-Advances : (i : ℕ) (m : Fault × Bool) → Advances m.0 (check_rms lt io i m).0
  unfolding check_rms
  check_rms-Advances i (s, p) =
      let cnt = if lt s.config.oc_slow_a (io.rms i) then saturate (s.oc_slow_cnt i) else 0 in
      let t = record s { oc_slow_cnt = put s.oc_slow_cnt i cnt } in
      let a = untouched s t refl refl refl refl refl refl (λ d h. h) in
      either-Advances_pair s _ _ _ (then-Advances s t _ a (raise-Advances io.analog (3 + i) 0 t)) a

  check_ov-Advances : (m : Fault × Bool) → Advances m.0 (check_ov lt io m).0
  unfolding check_ov
  check_ov-Advances (s, p) =
      either-Advances_pair s _ _ _
        (then-Advances s _ _ (raise-Advances io.analog vbus_ov 0 s)
          (request_stop-Advances vbus_ov _))
        (stays s)

  check_uv-Advances : (m : Fault × Bool) → Advances m.0 (check_uv lt io m).0
  unfolding check_uv
  check_uv-Advances (s, p) =
      either-Advances_pair s _ _ _
        (then-Advances s _ _ (raise-Advances io.analog vbus_uv 0 s)
          (request_stop-Advances vbus_uv _))
        (stays s)

  check_adc-Advances : (s : Fault) → Advances s (check_adc lt io s)
  unfolding check_adc
  check_adc-Advances s =
      let t =
        if io.sequence == s.seq_last
        then record s { adc_stall_cnt = saturate s.adc_stall_cnt }
        else record s { seq_last = io.sequence; adc_stall_cnt = 0 } in
      let a =
        either-Advances s _ _ (io.sequence == s.seq_last)
          (untouched s _ refl refl refl refl refl refl (λ d h. h))
          (untouched s _ refl refl refl refl refl refl (λ d h. h)) in
      either-Advances s _ _ _ (then-Advances s t _ a (raise-Advances io.analog adc_timeout 0 t)) a

  check_encoders-Advances : (s : Fault) → Advances s (check_encoders lt io s)
  unfolding check_encoders
  check_encoders-Advances s =
      let t = record s { enc_err_last = io.enc_errors } in
      either-Advances s _ _ _
        (then-Advances s t _ (untouched s t refl refl refl refl refl refl (λ d h. h))
          (raise-Advances io.analog enc_read 0 t))
        (stays s)

  count_vbus-Advances : (s : Fault) → Advances s (count_vbus lt io s)
  unfolding count_vbus
  count_vbus-Advances s = untouched s _ refl refl refl refl refl refl (λ d h. h)

  recover-Advances : (s : Fault) → Advances s (recover lt io s)
  unfolding recover
  recover-Advances s = untouched s _ refl refl refl refl refl refl (λ d h. h)

  checks-Advances : (s : Fault) → Advances s (checks lt io s).0
  unfolding checks
  checks-Advances s =
      let m₁ = check_rms lt io 0 (s, false) in
      let m₂ = check_rms lt io 1 m₁ in
      let m₃ = check_rms lt io 2 m₂ in
      let c = count_vbus lt io m₃.0 in
      let m₄ = check_ov lt io (c, m₃.1) in
      let m₅ = check_uv lt io m₄ in
      let a = check_adc lt io m₅.0 in
      let e = check_encoders lt io a in
      then-Advances s m₁.0 _ (check_rms-Advances 0 (s, false)) (
        then-Advances m₁.0 m₂.0 _ (check_rms-Advances 1 m₁) (
          then-Advances m₂.0 m₃.0 _ (check_rms-Advances 2 m₂) (
            then-Advances m₃.0 c _ (count_vbus-Advances m₃.0) (
              then-Advances c m₄.0 _ (check_ov-Advances (c, m₃.1)) (
                then-Advances m₄.0 m₅.0 _ (check_uv-Advances m₄) (
                  then-Advances m₅.0 a _ (check_adc-Advances m₅.0)
                    (then-Advances a e _ (check_encoders-Advances a) (recover-Advances e))))))))

  pub tick-Advances : (s : Fault) → Advances s (tick lt io s)
  unfolding tick
  tick-Advances s = either-Advances s s _ (not s.ready) (stays s) (
      either-Advances s _ _ (ltb s.settle_ticks settle_limit)
        (untouched s _ refl refl refl refl refl refl (λ d h. h))
        (then-Advances s (checks lt io s).0 _ (checks-Advances s) (eval_state-Advances _ _)))

pub on_wdog-Advances :
    (io : Sensors) (phase value : ℕ) (s : Fault) → Advances s (on_wdog io phase value s)
unfolding on_wdog
on_wdog-Advances io phase value s = either-Advances s s _ _ (stays s) (
    either-Advances s s _ _ (stays s) (
      then-Advances s _ _ (untouched s _ refl refl refl refl refl refl (λ d h. h))
        (raise-Advances io.analog phase value _)))

service_phase-Advances : (io : Sensors) (i : ℕ) (s : Fault) → Advances s (service_phase io i s).0
unfolding service_phase
service_phase-Advances io i s =
    let hit = put s.wdog_hit i false in
    let waits = record s { wdog_rearm_wait = put s.wdog_rearm_wait i (s.wdog_rearm_wait i - 1) } in
    let locks = record s { wdog_locked = put s.wdog_locked i true; wdog_hit = hit } in
    let rearms = record s {
      wdog_rearm_cnt = put s.wdog_rearm_cnt i (saturate (s.wdog_rearm_cnt i));
      wdog_hit = hit;
    } in
    let locked = raise io.analog (some i) 0 locks in
    let last =
      if leb s.config.rearm_max (s.wdog_rearm_cnt i) then (locked, false) else (rearms, true) in
    let outside = if not (raw_inside s (io.raw i)) then (s, false) else last in
    let due = if ltb 0 (s.wdog_rearm_wait i) then (waits, false) else outside in
    either-Advances_pair s (s, false) due (not (s.wdog_hit i) || s.wdog_locked i) (stays s)
      (either-Advances_pair s (waits, false) outside (ltb 0 (s.wdog_rearm_wait i))
        (untouched s _ refl refl refl refl refl refl (λ d h. h))
        (either-Advances_pair s (s, false) last (not (raw_inside s (io.raw i))) (stays s)
          (either-Advances_pair s (locked, false) (rearms, true)
            (leb s.config.rearm_max (s.wdog_rearm_cnt i))
            (then-Advances s locks _ (untouched s _ refl refl refl refl refl refl (λ d h. h))
              (raise-Advances io.analog i 0 locks))
            (untouched s _ refl refl refl refl refl refl (λ d h. h)))))

pub wdog_service-Advances : (io : Sensors) (s : Fault) → Advances s (wdog_service io s).0
unfolding wdog_service
wdog_service-Advances io s =
    let s₁ = (service_phase io 0 s).0 in
    let s₂ = (service_phase io 1 s₁).0 in
    let r₁ = service_phase io 0 s in
    let r₂ = service_phase io 1 s₁ in
    let r₃ = service_phase io 2 s₂ in
    either-Advances_pair s (s, []) (r₃.0, r₁.1 ∷ r₂.1 ∷ r₃.1 ∷ []) (not s.ready) (stays s)
      (then-Advances s s₁ _ (service_phase-Advances io 0 s)
        (then-Advances s₁ s₂ _ (service_phase-Advances io 1 s₁) (service_phase-Advances io 2 s₂)))

option_pair-Advances :
    (s : Fault) (t : Bool × Fault) (f : ℕ → Bool × Fault) (o : Option ℕ)
    → Advances s t.1
    → ((x : ℕ) → Advances s (f x).1)
    → let m : Bool × Fault = elim o [ none ↦ t | some x ↦ f x ] in Advances s m.1
option_pair-Advances s t f none a b = a
option_pair-Advances s t f (some x) a b = b x

pub inject-Advances :
    (r : Option Analog) (code : ℕ → Bool) (on : Bool) (s : Fault)
    → Advances s (inject r code on s).1
unfolding inject
inject-Advances r code on s =
    option_pair-Advances s (false, s)
      (λ b. (true, eval_state false (if on then inject_on r b s else inject_off b s)))
      (code_bit code) (stays s)
      (λ b.
        then-Advances s (if on then inject_on r b s else inject_off b s) _
          (either-Advances s _ _ on (inject_on-Advances r b s) (inject_off-Advances b s))
          (eval_state-Advances false _))

pub app_raise-Advances :
    (r : Option Analog) (code : ℕ → Bool) (s : Fault) → Advances s (app_raise r code s)
unfolding app_raise
app_raise-Advances r code s = option_case (code_bit code)
  where
    option_case : (o : Option ℕ) → Advances s (raise r o 0 s)
    option_case none = refresh-Advances r 0 s
    option_case (some b) = raise-Advances r b 0 s

pub note_stop_rejected-Advances : (s : Fault) → Advances s (note_stop_rejected s)
unfolding note_stop_rejected
note_stop_rejected-Advances s =
    then-Advances s _ _ (untouched s _ refl refl refl refl refl refl (λ d h. h))
      (eval_state-Advances false _)

pub take_stop_request-Advances : (s : Fault) → Advances s (take_stop_request s).1
unfolding take_stop_request
take_stop_request-Advances s = untouched s _ refl refl refl refl refl refl (λ d h. refl)
