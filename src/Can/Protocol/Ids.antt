-- ===== src/Can/Protocol/Ids.antt =====
-- Identifiers: `app_can_dm_parse_id` and `app_can_dm_make_id` are inverse to each other.
use Prim.Native.Nat.{bit_or}
use hpm53m1_g6618motor.Base.{
  ℕ, ◌+◌, ◌*◌, ◌/◌, ◌%◌, ◌≤◌, ◌<◌, ◌≡◌, refl, ◌∙◌, ◌↔◌, true, some, arith, ◌==◌, ==_iff,
}
use hpm53m1_g6618motor.Base.Table.{every, every-at}
use hpm53m1_g6618motor.Can.Protocol.{parse_id, make_id, feedback_id, type_feedback}

or_table :
    every 256 (λ x. bit_or (bit_or 0x100 (x / 16 * 16)) (x % 16) == 256 + x / 16 * 16 + x % 16)
    ≡ true
unfolding every
or_table = refl

or_fields : (t n : ℕ) → t < 16 → n < 16 → bit_or (bit_or 0x100 (t * 16)) n ≡ 256 + t * 16 + n
or_fields t n ht hn =
    let q : (t * 16 + n) / 16 ≡ t = omega arith in
    let r : (t * 16 + n) % 16 ≡ n = omega arith in
    rw (q, r) at ((==_iff _ _).0 (every-at 256 _ (t * 16 + n) or_table (omega arith)))

pub make_id_sum : (t n : ℕ) → make_id t n ≡ 256 + t % 16 * 16 + n % 16
unfolding make_id
make_id_sum t n = or_fields (t % 16) (n % 16) (omega arith) (omega arith)

-- `app_can_dm_parse_id` accepts an identifier with type `t` and node `n` exactly when `t` is one of
-- the types 1 to 8, `n` is a node number and the identifier is `app_can_dm_make_id(t, n)`.
pub parse_id-make_id :
    (id t n : ℕ)
    → (parse_id id ≡ some (t, n)) ↔ ((1 ≤ t) × (t ≤ type_feedback) × (n < 16) × (id ≡ make_id t n))
unfolding parse_id
parse_id-make_id id t n =
    (λ h. ground (arith, make_id_sum t n), λ h. ground (arith, make_id_sum t n))

feedback_table : every 16 (λ n. bit_or 0x180 n == 0x180 + n) ≡ true
unfolding every
feedback_table = refl

-- A feedback frame carries the identifier of type 8 for its node.
pub feedback_id-eq-make_id : (n : ℕ) → feedback_id n ≡ make_id type_feedback n
unfolding feedback_id
feedback_id-eq-make_id n =
    ((==_iff _ _).0 (every-at 16 _ (n % 16) feedback_table (omega arith)))
    ∙ (omega (arith, make_id_sum 8 n))
