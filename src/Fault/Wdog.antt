-- ===== src/Fault/Wdog.antt =====
-- The hardware overcurrent watchdog of the ADC: its interrupt and its automatic re-arming
-- (app_fault.c, `app_fault_on_wdog`, `app_fault_wdog_service`, `app_fault_set_wdog_rearm`).
use hpm53m1_g6618motor.Base.{
  ℕ, ◌-◌, Bool, true, false, not, ◌||◌, some, List, [], ◌∷◌, ltb, leb, if◌then◌else◌,
}
use hpm53m1_g6618motor.Fault.{Fault, put, raise, saturate}
use hpm53m1_g6618motor.Fault.Tick.{Sensors, raw_inside, settle_limit}

-- `app_fault_on_wdog` for the phase 0, 1 or 2; other channels are ignored.
unfoldable pub on_wdog : Sensors → ℕ → ℕ → Fault → Fault
on_wdog io phase value s =
    if not s.ready || leb 3 phase
    then s
    else if ltb s.settle_ticks settle_limit
    then s
    else raise io.analog (some phase) value (record s {
      wdog_hit = put s.wdog_hit phase true;
      wdog_rearm_wait = put s.wdog_rearm_wait phase s.config.rearm_ticks;
    })

-- One phase of `app_fault_wdog_service`, and whether it re-arms the channel.
unfoldable pub service_phase : Sensors → ℕ → Fault → Fault × Bool
service_phase io i s =
    if not (s.wdog_hit i) || s.wdog_locked i
    then (s, false)
    else if ltb 0 (s.wdog_rearm_wait i)
    then (record s { wdog_rearm_wait = put s.wdog_rearm_wait i (s.wdog_rearm_wait i - 1) }, false)
    else if not (raw_inside s (io.raw i))
    then (s, false)
    else if leb s.config.rearm_max (s.wdog_rearm_cnt i)
    then (
      raise io.analog (some i) 0
          (record s { wdog_locked = put s.wdog_locked i true; wdog_hit = put s.wdog_hit i false }),
      false,
    )
    else (
      record s {
        wdog_rearm_cnt = put s.wdog_rearm_cnt i (saturate (s.wdog_rearm_cnt i));
        wdog_hit = put s.wdog_hit i false;
      },
      true,
    )

-- The state after the three phases, and the channels that were re-armed.
unfoldable pub wdog_service : Sensors → Fault → Fault × List Bool
wdog_service io s =
    if not s.ready
    then (s, [])
    else let (s₁, r₁) = service_phase io 0 s in
      let (s₂, r₂) = service_phase io 1 s₁ in
      let (s₃, r₃) = service_phase io 2 s₂ in (s₃, r₁ ∷ r₂ ∷ r₃ ∷ [])

-- `app_fault_set_wdog_rearm`
unfoldable pub set_wdog_rearm : ℕ → ℕ → Fault → Fault
set_wdog_rearm rearm_ms rearm_max s = record s {
  config = record (s.config) {
    rearm_ticks = if ltb 0 rearm_ms then rearm_ms else s.config.rearm_ticks;
    rearm_max = if ltb 0 rearm_max then rearm_max else s.config.rearm_max;
  };
}
