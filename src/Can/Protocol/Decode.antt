-- ===== src/Can/Protocol/Decode.antt =====
-- What an accepted control frame says.
use mathlib.Core.Path.{ap₂}
use hpm53m1_g6618motor.Base.{
  ℕ, ◌≤◌, ◌≡◌, ◌≢◌, sym, ap, ◌∙◌, inl, inr, true, List, arith, byte_at, Option-cases, ◌||◌,
  Bool-cases, ◌==◌, ==_iff, if◌then◌else◌,
}
use hpm53m1_g6618motor.Float.{FloatOps, finite}
use hpm53m1_g6618motor.Can.Protocol.{
  parse_id, make_id, Kind, kind_none, mit, pos_vel, vel, force_pos, enable, disable, clear, Frame,
  Scale, empty_frame, Rc, success, foreign, decode_type, decode, decode_mit, decode_pos_vel,
  decode_vel, decode_force_pos, decode_command,
}
use hpm53m1_g6618motor.Can.Protocol.Ids.{parse_id-make_id}

-- The frame type of each kind, and the shortest frame of that type.
abbrev pub type_of : Kind → ℕ
type_of kind_none = 0
type_of mit = 1
type_of pos_vel = 2
type_of vel = 3
type_of force_pos = 4
type_of enable = 5
type_of disable = 6
type_of clear = 7

abbrev pub min_len : Kind → ℕ
min_len kind_none = 0
min_len mit = 8
min_len pos_vel = 8
min_len vel = 4
min_len force_pos = 8
min_len enable = 1
min_len disable = 1
min_len clear = 1

-- The magic byte that a command frame must begin with.
abbrev pub HasMagic : Kind → ℕ → Type 0
HasMagic enable b = b ≡ 0xFC
HasMagic disable b = b ≡ 0xFD
HasMagic clear b = b ≡ 0xFE
HasMagic _ b = Unit

abbrev pub HasFinite : Kind → Frame → Type 0
HasFinite pos_vel f = (finite f.p_des_rad ≡ true) × (finite f.v_des_rad_s ≡ true)
HasFinite vel f = finite f.v_des_rad_s ≡ true
HasFinite force_pos f = finite f.p_des_rad ≡ true
HasFinite _ f = Unit

record Accepted (type len : ℕ) (bytes : List ℕ) (f : Frame) : Type 0 where
  type_matches : type_of f.kind ≡ type
  known : 1 ≤ type
  long : min_len f.kind ≤ len
  magic : HasMagic f.kind (byte_at bytes 0)
  numbers : HasFinite f.kind f

module _ (fl : FloatOps) (bytes : List ℕ) (len : ℕ) where
  decode_mit-Accepted :
      (sc : Scale)
      → (decode_mit fl sc bytes len).0 ≡ success
      → Accepted 1 len bytes (decode_mit fl sc bytes len).1
  unfolding decode_mit
  decode_mit-Accepted sc h = ground arith

  decode_pos_vel-Accepted :
      (decode_pos_vel fl bytes len).0 ≡ success
      → Accepted 2 len bytes (decode_pos_vel fl bytes len).1
  unfolding decode_pos_vel
  decode_pos_vel-Accepted h = ground arith

  decode_vel-Accepted :
      (decode_vel fl bytes len).0 ≡ success → Accepted 3 len bytes (decode_vel fl bytes len).1
  unfolding decode_vel
  decode_vel-Accepted h = ground arith

  decode_force_pos-Accepted :
      (decode_force_pos fl bytes len).0 ≡ success
      → Accepted 4 len bytes (decode_force_pos fl bytes len).1
  unfolding decode_force_pos
  decode_force_pos-Accepted h = ground arith

  decode_command-Accepted :
      (type : ℕ)
      → 5 ≤ type
      → type ≤ 7
      → (decode_command fl type bytes len).0 ≡ success
      → Accepted type len bytes (decode_command fl type bytes len).1
  unfolding decode_command
  decode_command-Accepted type lo hi h = ground arith

-- A switch case that is not taken, and one that is.
module _ (fl : FloatOps) (type : ℕ) (sc : Scale) (bytes : List ℕ) (len : ℕ) where
  Sound : Rc × Frame → Type 0
  Sound r = r.0 ≡ success → Accepted type len bytes r.1

  case :
      (k : ℕ) (r s : Rc × Frame)
      → (type ≡ k → Sound r)
      → Sound s
      → Sound (if type == k then r else s)
  unfolding Sound
  case k r s here rest = elim (Bool-cases (type == k)) [
    | inl e ↦ rw e (here ((==_iff type k).0 e))
    | inr e ↦ rw e rest
  ]

  decode_type-Accepted : Sound (decode_type fl type sc bytes len)
  unfolding decode_type Sound
  decode_type-Accepted =
      case 1 _ _ (λ e. rw e (decode_mit-Accepted fl bytes len sc))
        (case 2 _ _ (λ e. rw e (decode_pos_vel-Accepted fl bytes len))
          (case 3 _ _ (λ e. rw e (decode_vel-Accepted fl bytes len))
            (case 4 _ _ (λ e. rw e (decode_force_pos-Accepted fl bytes len)) command)))
    where
      command : Sound (
          if type == 5 || type == 6 || type == 7
          then decode_command fl type bytes len
          else (foreign, empty_frame))
      command h = elim (Bool-cases (type == 5 || type == 6 || type == 7)) [
        | inl e ↦
            rw e
              (decode_command-Accepted fl bytes len type (ground arith) (ground arith) (rw e at h))
        | inr e ↦ cc (rw e at h)
      ]

-- If `app_can_dm_decode` accepts a frame, the identifier is that of the frame's kind for this node, the
-- data is at least as long as the kind wants, a command frame begins with its magic byte, and the
-- numbers that a position or velocity frame carries in the clear are finite.
pub decode_accepts :
    (fl : FloatOps) (id : ℕ) (bytes : List ℕ) (len node : ℕ) (sc : Scale)
    → (decode fl id bytes len node sc).0 ≡ success
    → let f = (decode fl id bytes len node sc).1 in
      (f.kind ≢ kind_none)
      × (id ≡ make_id (type_of f.kind) node)
      × (min_len f.kind ≤ len)
      × HasMagic f.kind (byte_at bytes 0)
      × HasFinite f.kind f
unfolding decode Sound
decode_accepts fl id bytes len node sc h = elim (Option-cases (parse_id id)) [
  | inl e ↦ cc (rw (e, decode) at h)
  | inr ((t, n), e) ↦ elim (Bool-cases (n == node)) [
    | inl same ↦
        let ids = (parse_id-make_id id t n).0 e in
        let a = decode_type-Accepted fl t sc bytes len (rw (e, same, decode) at h) in
        rw (e, same, decode)
          (
            λ z. absurd (omega (arith, a, ap type_of z)),
            ids.3 ∙ ap₂ make_id (sym a.type_matches) ((==_iff n node).0 same),
            a.long,
            a.magic,
            a.numbers,
          )
    | inr other ↦ cc (rw (e, other, decode) at h)
  ]
]
