-- ===== src/Can/Protocol.antt =====
-- Identifiers and control frames of the DM protocol (app_can_protocol.c).
pub mod Ids
pub mod Decode
use Prim.Native.Nat.{bit_or}
use hpm53m1_g6618motor.Base.{
  ℕ, ◌+◌, ◌-◌, ◌*◌, ◌/◌, ◌%◌, ◌^◌, Bool, true, false, not, ◌&&◌, ◌||◌, Option, none, some, List,
  ltb, leb, ◌==◌, if◌then◌else◌, byte_at, get16, get32, word32,
}
use hpm53m1_g6618motor.Float.{FloatOps, finite}

abbrev pub type_mit : ℕ
type_mit = 1

abbrev pub type_pos_vel : ℕ
type_pos_vel = 2

abbrev pub type_vel : ℕ
type_vel = 3

abbrev pub type_force_pos : ℕ
type_force_pos = 4

abbrev pub type_enable : ℕ
type_enable = 5

abbrev pub type_disable : ℕ
type_disable = 6

abbrev pub type_clear : ℕ
type_clear = 7

abbrev pub type_feedback : ℕ
type_feedback = 8

-- `app_can_dm_parse_id`: the type and the node, or `none` for `false`.
unfoldable pub parse_id : ℕ → Option (ℕ × ℕ)
parse_id id =
    if ltb 0x7FF id || not (id / 256 == 1)
    then none
    else let t = id / 16 % 16 in
      if ltb t type_mit || ltb type_feedback t then none else some (t, id % 16)

unfoldable pub make_id : ℕ → ℕ → ℕ
make_id type node = bit_or (bit_or 0x100 (type % 16 * 16)) (node % 16)

unfoldable pub feedback_id : ℕ → ℕ
feedback_id node = bit_or 0x180 (node % 16)

-- `app_can_dm_kind_t`
pub data Kind : Type 0 where
  kind_none mit pos_vel vel force_pos enable disable clear : Kind

-- `app_can_dm_frame_t`
pub record Frame : Type 0 where
  pub kind : Kind
  pub p_des_rad : ℕ
  pub v_des_rad_s : ℕ
  pub kp : ℕ
  pub kd : ℕ
  pub t_ff_nm : ℕ
  pub vel_limit_rad_s : ℕ
  pub iq_ratio : ℕ

-- `app_can_dm_scale_t`
pub record Scale : Type 0 where
  pub p_max_rad : ℕ
  pub v_max_rad_s : ℕ
  pub t_ff_max_nm : ℕ
  pub t_fb_max_nm : ℕ
  pub kp_max : ℕ
  pub kd_max : ℕ

-- The patterns of 12.5, 30, 10, 200, 500 and 5.
abbrev pub default_scale : Scale
default_scale = record {
  p_max_rad = 0x41480000;
  v_max_rad_s = 0x41F00000;
  t_ff_max_nm = 0x41200000;
  t_fb_max_nm = 0x43480000;
  kp_max = 0x43FA0000;
  kd_max = 0x40A00000;
}

-- The frame that `app_can_dm_decode` starts from (0.0f has the pattern 0).
abbrev pub empty_frame : Frame
empty_frame = record {
  kind = kind_none;
  p_des_rad = 0;
  v_des_rad_s = 0;
  kp = 0;
  kd = 0;
  t_ff_nm = 0;
  vel_limit_rad_s = 0;
  iq_ratio = 0;
}

-- The results 0, 1 and -1.
pub data Rc : Type 0 where
  success foreign invalid : Rc

abbrev pub one : ℕ
one = 0x3F800000

abbrev pub hundred : ℕ
hundred = 0x42C80000

abbrev pub ten_thousand : ℕ
ten_thousand = 0x461C4000

module _ (fl : FloatOps) where
  open fl use {add, sub, mul, div, neg, lt, le, of_uint, to_uint}

  -- On finite bounds `max <= min` is `le max min`.
  unfoldable pub float_to_uint : ℕ → ℕ → ℕ → ℕ → ℕ
  float_to_uint x min max bits =
      let max_raw = 2 ^ bits - 1 in
      if bits == 0 || ltb 16 bits || le max min || not (finite x)
      then 0
      else if le x min
      then 0
      else if le max x
      then max_raw
      else to_uint (div (mul (sub x min) (of_uint max_raw)) (sub max min))

  unfoldable pub uint_to_float : ℕ → ℕ → ℕ → ℕ → ℕ
  uint_to_float x min max bits =
      let max_raw = 2 ^ bits - 1 in
      if bits == 0 || ltb 16 bits || le max min
      then min
      else add (div (mul (of_uint x) (sub max min)) (of_uint max_raw)) min

  unfoldable pub decode_mit : Scale → List ℕ → ℕ → Rc × Frame
  decode_mit sc bytes len =
      let b = byte_at bytes in
      let p_raw = b 0 * 256 + b 1 in
      let v_raw = b 2 * 16 + b 3 / 16 in
      let kp_raw = b 3 % 16 * 256 + b 4 in
      let kd_raw = b 5 * 16 + b 6 / 16 in
      let t_raw = b 6 % 16 * 256 + b 7 in
      if ltb len 8 then (invalid, empty_frame) else (
        success,
        record empty_frame {
          kind = mit;
          p_des_rad = uint_to_float p_raw (neg sc.p_max_rad) sc.p_max_rad 16;
          v_des_rad_s = uint_to_float v_raw (neg sc.v_max_rad_s) sc.v_max_rad_s 12;
          kp = uint_to_float kp_raw 0 sc.kp_max 12;
          kd = uint_to_float kd_raw 0 sc.kd_max 12;
          t_ff_nm = uint_to_float t_raw (neg sc.t_ff_max_nm) sc.t_ff_max_nm 12;
        },
      )

  unfoldable pub decode_pos_vel : List ℕ → ℕ → Rc × Frame
  decode_pos_vel bytes len =
      let p = get32 bytes 0 in
      let v = get32 bytes 4 in
      if ltb len 8
      then (invalid, empty_frame)
      else if not (finite p) || not (finite v)
      then (invalid, empty_frame)
      else (success, record empty_frame { kind = pos_vel; p_des_rad = p; v_des_rad_s = v })

  unfoldable pub decode_vel : List ℕ → ℕ → Rc × Frame
  decode_vel bytes len =
      let v = get32 bytes 0 in
      if ltb len 4
      then (invalid, empty_frame)
      else if not (finite v)
      then (invalid, empty_frame)
      else (success, record empty_frame { kind = vel; v_des_rad_s = v })

  unfoldable pub decode_force_pos : List ℕ → ℕ → Rc × Frame
  decode_force_pos bytes len =
      let p = get32 bytes 0 in
      let v_raw = get16 bytes 4 in
      let iq_raw = get16 bytes 6 in
      if ltb len 8
      then (invalid, empty_frame)
      else if not (finite p)
      then (invalid, empty_frame)
      else (
        success,
        record empty_frame {
          kind = force_pos;
          p_des_rad = p;
          vel_limit_rad_s = div (of_uint v_raw) hundred;
          iq_ratio = if ltb 10000 iq_raw then one else div (of_uint iq_raw) ten_thousand;
        },
      )

  -- The three command frames, each with its magic byte.
  unfoldable pub decode_command : ℕ → List ℕ → ℕ → Rc × Frame
  decode_command type bytes len =
      let magic =
        if type == type_enable then 0xFC else if type == type_disable then 0xFD else 0xFE in
      if ltb len 1 || not (byte_at bytes 0 == magic) then (invalid, empty_frame) else (
        success,
        record empty_frame {
          kind =
              if type == type_enable
              then enable
              else if type == type_disable
              then disable
              else clear;
        },
      )

  -- The `switch` of `app_can_dm_decode`.
  unfoldable pub decode_type : ℕ → Scale → List ℕ → ℕ → Rc × Frame
  decode_type type sc bytes len =
      if type == type_mit
      then decode_mit sc bytes len
      else if type == type_pos_vel
      then decode_pos_vel bytes len
      else if type == type_vel
      then decode_vel bytes len
      else if type == type_force_pos
      then decode_force_pos bytes len
      else if type == type_enable || type == type_disable || type == type_clear
      then decode_command type bytes len
      else (foreign, empty_frame)

  -- `app_can_dm_decode` for a node, with neither pointer NULL.
  unfoldable pub decode : ℕ → List ℕ → ℕ → ℕ → Scale → Rc × Frame
  decode id bytes len node sc = elim (parse_id id) [
    | none ↦ (foreign, empty_frame)
    | some (type, frame_node) ↦
        if not (frame_node == node) then (foreign, empty_frame) else decode_type type sc bytes len
  ]
