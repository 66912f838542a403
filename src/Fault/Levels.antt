-- ===== src/Fault/Levels.antt =====
-- The settings of the fault module that have a range, and the limit that a DERATE policy sets
-- (app_fault.c, `app_fault_set_derate_scale`, `app_fault_set_vbus_levels`, `app_fault_get_limit_scale`).
use hpm53m1_g6618motor.Base.{ℕ, zero, suc, ◌+◌, Bool, ◌&&◌, ltb, ◌==◌, if◌then◌else◌}
use hpm53m1_g6618motor.Float.{finite}
use hpm53m1_g6618motor.Fault.{Fault, effective_active, derate, code_count}

abbrev pub one_float : ℕ
one_float = 0x3F800000

-- The first of the codes from `i` on that is active under DERATE decides.
unfoldable pub limit_scale_from : ℕ → ℕ → Fault → ℕ
limit_scale_from zero i s = one_float
limit_scale_from (suc n) i s =
    let rest = limit_scale_from n (i + 1) s in
    if effective_active s i && s.policy i == derate then s.derate_scale else rest

unfoldable pub get_limit_scale : Fault → ℕ
unfolding limit_scale_from
get_limit_scale s = limit_scale_from code_count 0 s

unfoldable pub set_derate_scale : (ℕ → ℕ → Bool) → (ℕ → ℕ → Bool) → ℕ → Fault → Fault
set_derate_scale lt le scale s =
    if finite scale && lt 0 scale && le scale one_float
    then record s { derate_scale = scale }
    else s

-- A level that is finite and above 0 replaces the one before.
unfoldable pub level_or : (ℕ → ℕ → Bool) → ℕ → ℕ → ℕ
level_or lt level old = if finite level && lt 0 level then level else old

unfoldable pub set_vbus_levels : (ℕ → ℕ → Bool) → ℕ → ℕ → ℕ → ℕ → ℕ → Fault → Fault
set_vbus_levels lt ov_v ov_trip_v uv_v ov_ms uv_ms s = record s {
  config = record (s.config) {
    vbus_ov_v = level_or lt ov_v s.config.vbus_ov_v;
    vbus_ov_trip_v = level_or lt ov_trip_v s.config.vbus_ov_trip_v;
    vbus_uv_v = level_or lt uv_v s.config.vbus_uv_v;
    vbus_ov_ms = if ltb 0 ov_ms then ov_ms else s.config.vbus_ov_ms;
    vbus_uv_ms = if ltb 0 uv_ms then uv_ms else s.config.vbus_uv_ms;
  };
}
