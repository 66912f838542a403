-- ===== src/Can/Policy/Safety.antt =====
-- When a frame may move the motor, and what the error code tells the host.
use Prim.Native.Nat.{bit_and, bit_and-bitwise}
use hpm53m1_g6618motor.Base.{
  ℕ, ◌^◌, ◌<◌, ◌≡◌, ◌↔◌, refl, ◌⊎◌, Bool, true, false, arith, ◌&&◌, ◌==◌, if◌then◌else◌, ltb, ◌||◌,
}
use hpm53m1_g6618motor.Base.Table.{every, every-at}
use hpm53m1_g6618motor.Can.Protocol.{
  Kind, kind_none, mit, pos_vel, vel, force_pos, enable, disable, clear,
}
use hpm53m1_g6618motor.Can.Policy.{
  Action, act_enable, act_disable, act_clear, act_mit, act_position, act_velocity, act_force_pos,
  act_release_output, foc_ready, foc_run, motion_speed, motion_position, motion_mit, plan,
  err_from_fault, oc_mask,
}

-- The actions that command a motion, with the mode each runs in.
abbrev pub motion_mode : Action → ℕ
motion_mode act_mit = motion_mit
motion_mode act_position = motion_position
motion_mode act_force_pos = motion_position
motion_mode act_velocity = motion_speed
motion_mode _ = 0

abbrev pub IsMotion : Action → Type 0
IsMotion act_mit = Unit {0}
IsMotion act_position = Unit {0}
IsMotion act_force_pos = Unit {0}
IsMotion act_velocity = Unit {0}
IsMotion _ = ⊥

abbrev pub IsFocusable : ℕ → Type 0
IsFocusable foc_state = (foc_state ≡ foc_ready) ⊎ (foc_state ≡ foc_run)

-- `app_can_dm_plan` commands a motion only if the FOC is READY or RUN, only in the mode of the motion
-- that is running if one is, and MIT only if MIT is enabled; it releases the output only if a motion
-- runs while the FOC is READY or RUN.
pub plan_safe :
    (k : Kind) (mode : ℕ) (active : Bool) (foc : ℕ) (mit_enabled : Bool)
    → let a = plan k mode active foc mit_enabled in
      (IsMotion a → IsFocusable foc × (active ≡ true → mode ≡ motion_mode a))
      × (a ≡ act_mit → mit_enabled ≡ true)
      × (a ≡ act_release_output → IsFocusable foc × (active ≡ true))
unfolding plan
plan_safe enable mode active foc me = ground arith
plan_safe disable mode active foc me = ground arith
plan_safe clear mode active foc me = ground arith
plan_safe mit mode active foc me = ground arith
plan_safe pos_vel mode active foc me = ground arith
plan_safe vel mode active foc me = ground arith
plan_safe force_pos mode active foc me = ground arith
plan_safe kind_none mode active foc me = ground arith

-- The three commands pass to the FOC, motion and fault modules in every state, and only their own
-- frames do.
pub plan_commands :
    (k : Kind) (mode : ℕ) (active : Bool) (foc : ℕ) (mit_enabled : Bool)
    → let a = plan k mode active foc mit_enabled in
      ((a ≡ act_enable) ↔ (k ≡ enable))
      × ((a ≡ act_disable) ↔ (k ≡ disable))
      × ((a ≡ act_clear) ↔ (k ≡ clear))
unfolding plan
plan_commands enable mode active foc me = ground arith
plan_commands disable mode active foc me = ground arith
plan_commands clear mode active foc me = ground arith
plan_commands mit mode active foc me = ground arith
plan_commands pos_vel mode active foc me = ground arith
plan_commands vel mode active foc me = ground arith
plan_commands force_pos mode active foc me = ground arith
plan_commands kind_none mode active foc me = ground arith

bit_and_of_zero : (a m : ℕ) → a ≡ 0 → bit_and a m ≡ 0
bit_and_of_zero a m e = rw e (simp bit_and-bitwise)

-- The error code is below 2 exactly when no fault is latched and the feedback is valid, and then it
-- says whether the FOC is enabled.
pub err_from_fault_ok :
    (latched : ℕ) (valid enabled : Bool)
    → ((err_from_fault latched valid enabled < 2) ↔ ((latched ≡ 0) × (valid ≡ true)))
      × (latched ≡ 0
          → valid ≡ true
          → err_from_fault latched valid enabled ≡ (if enabled then 1 else 0))
unfolding err_from_fault
err_from_fault_ok latched valid enabled = ground (
  arith,
  bit_and_of_zero latched oc_mask,
  bit_and_of_zero latched 0x40,
  bit_and_of_zero latched 0x80,
  bit_and_of_zero latched 0x800,
)

-- The class of the DM protocol for each fault bit of app_fault.h.
abbrev pub fault_class : ℕ → ℕ
fault_class i =
    if ltb i 6 || i == 10
    then 0xA
    else if i == 6
    then 0x8
    else if i == 7
    then 0x9
    else if i == 11
    then 0xD
    else 0xF

class_table :
    every 12 (λ i.
      err_from_fault (2 ^ i) true true == fault_class i
      && err_from_fault (2 ^ i) true false == fault_class i
      && err_from_fault (2 ^ i) false true == fault_class i
      && err_from_fault (2 ^ i) false false == fault_class i)
    ≡ true
unfolding every err_from_fault
class_table = refl

-- A single latched fault is reported as its class, whatever the feedback and the FOC do: overcurrent
-- (bits 0 to 5 and 10) as A, overvoltage as 8, undervoltage as 9, a lost host as D, the rest as F.
pub err_from_fault-fault_class :
    (i : ℕ) (valid enabled : Bool) → i < 12 → err_from_fault (2 ^ i) valid enabled ≡ fault_class i
err_from_fault-fault_class i true true h = ground (arith, every-at 12 _ i class_table h)
err_from_fault-fault_class i true false h = ground (arith, every-at 12 _ i class_table h)
err_from_fault-fault_class i false true h = ground (arith, every-at 12 _ i class_table h)
err_from_fault-fault_class i false false h = ground (arith, every-at 12 _ i class_table h)
