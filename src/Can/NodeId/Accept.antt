-- ===== src/Can/NodeId/Accept.antt =====
-- When `app_can_id_read` returns a node number, and what it rests on (app_can_id.c).
use mathlib.Core.List.{Perm, perm_middle}
use mathlib.Core.List.Perm
use hpm53m1_g6618motor.Base.{
  ℕ, ◌+◌, ◌-◌, ◌/◌, ◌≤◌, ◌<◌, ◌≡◌, ◌≢◌, ◌⊎◌, inl, inr, List, [], ◌∷◌, ◌++◌, arith, Bool-cases, leb,
  length, get_or, Option, if◌then◌else◌,
}
use hpm53m1_g6618motor.Can.NodeId.{
  invalid_id, decode_id, sort_samples, distance, inliers_of, BootId, read_id, in_window,
}
use hpm53m1_g6618motor.Can.NodeId.Median.{All≥, IsSorted, sort_samples_sorts}

-- Two codes at most 256 apart.
abbrev pub IsNear : ℕ → ℕ → Type 0
IsNear median x = (x ≤ median + 256) × (median ≤ x + 256)

abbrev pub All : (ℕ → Type 0) → List ℕ → Type 0
All P [] = Unit {0}
All P (x ∷ xs) = P x × All P xs

-- The samples that the median leaves out.
abbrev outliers_of : ℕ → List ℕ → List ℕ
outliers_of median [] = []
outliers_of median (x ∷ xs) =
    let rest = outliers_of median xs in if leb (distance x median) 256 then rest else x ∷ rest

inliers_of-IsNear : (median : ℕ) (xs : List ℕ) → All (IsNear median) (inliers_of median xs)
unfolding inliers_of distance
inliers_of-IsNear median [] = tt
inliers_of-IsNear median (x ∷ xs) = elim (Bool-cases (leb (distance x median) 256)) [
  | inl e ↦ rw e (ground (arith, e), inliers_of-IsNear median xs)
  | inr e ↦ rw e (inliers_of-IsNear median xs)
]

outliers_of-IsFar :
    (median : ℕ) (xs : List ℕ) → All (λ x. IsNear median x → ⊥) (outliers_of median xs)
unfolding distance
outliers_of-IsFar median [] = tt
outliers_of-IsFar median (x ∷ xs) = elim (Bool-cases (leb (distance x median) 256)) [
  | inl e ↦ rw e (outliers_of-IsFar median xs)
  | inr e ↦ rw e (λ n. ground (arith, e, n), outliers_of-IsFar median xs)
]

inliers_of-perm :
    (median : ℕ) (xs : List ℕ) → Perm (inliers_of median xs ++ outliers_of median xs) xs
unfolding inliers_of
inliers_of-perm median [] = Perm.refl []
inliers_of-perm median (x ∷ xs) = elim (Bool-cases (leb (distance x median) 256)) [
  | inl e ↦ rw e (Perm.cons x (inliers_of-perm median xs))
  | inr e ↦ rw e (
      Perm.trans (perm_middle (inliers_of median xs) (outliers_of median xs))
        (Perm.cons x (inliers_of-perm median xs)))
]

inliers_of-All≥ : (b median : ℕ) (xs : List ℕ) → All≥ b xs → All≥ b (inliers_of median xs)
unfolding inliers_of
inliers_of-All≥ b median [] h = tt
inliers_of-All≥ b median (x ∷ xs) h = elim (Bool-cases (leb (distance x median) 256)) [
  | inl e ↦ rw e (h.0, inliers_of-All≥ b median xs h.1)
  | inr e ↦ rw e (inliers_of-All≥ b median xs h.1)
]

inliers_of-IsSorted : (median : ℕ) (xs : List ℕ) → IsSorted xs → IsSorted (inliers_of median xs)
unfolding inliers_of
inliers_of-IsSorted median [] h = tt
inliers_of-IsSorted median (x ∷ xs) h = elim (Bool-cases (leb (distance x median) 256)) [
  | inl e ↦ rw e (inliers_of-All≥ x median xs h.0, inliers_of-IsSorted median xs h.1)
  | inr e ↦ rw e (inliers_of-IsSorted median xs h.1)
]

decode_id_cases :
    (raw : ℕ) → (decode_id raw ≡ invalid_id) ⊎ ((decode_id raw < 8) × (100 < raw) × (raw ≤ 65000))
unfolding decode_id
decode_id_cases raw = ground arith

-- The result rests on the kept codes, and the other ones are left out.
pub record IsSupported (readings : List (Option ℕ)) (r : BootId) (kept left_out : List ℕ)
    : Type 0 where
  pub all_samples : Perm (kept ++ left_out) (in_window readings)
  pub all_near :
      let samples = sort_samples (in_window readings) in
      All (IsNear (get_or samples (length samples / 2) 0)) kept
  pub all_far :
      let samples = sort_samples (in_window readings) in
      All (λ x. IsNear (get_or samples (length samples / 2) 0) x → ⊥) left_out
  pub in_order : IsSorted kept
  pub enough : 5 ≤ length kept
  pub middle : r.raw ≡ get_or kept (length kept / 2) 0
  pub width : r.spread ≡ get_or kept (length kept - 1) 0 - get_or kept 0 0
  pub narrow : r.spread ≤ 512

-- If `app_can_id_read` returns a node number, it is one of the eight, decoded from a raw code inside
-- the valid window. The valid samples fall into those within 256 of the median of them all, which are
-- at least five, and those that are not; the raw code is the middle one of the near samples in
-- ascending order, and the spread that it reports, at most 512, is that of the last and the first.
pub read_id_accepts :
    (readings : List (Option ℕ))
    → (read_id readings).id ≢ invalid_id
    → let r = read_id readings in
      (r.id < 8)
      × (r.id ≡ decode_id r.raw)
      × (100 < r.raw)
      × (r.raw ≤ 65000)
      × ((kept : List ℕ) × (left_out : List ℕ) × IsSupported readings r kept left_out)
unfolding read_id
read_id_accepts readings h =
    let samples = sort_samples (in_window readings) in
    let median = get_or samples (length samples / 2) 0 in
    let inliers = inliers_of median samples in
    let center = get_or inliers (length inliers / 2) 0 in
    let (ordered, same) = sort_samples_sorts (in_window readings) in
    (
      ground (arith, decode_id_cases center),
      ground arith,
      ground (arith, decode_id_cases center),
      ground (arith, decode_id_cases center),
      (
        inliers,
        outliers_of median samples,
        record {
          all_samples = Perm.trans (inliers_of-perm median samples) same;
          all_near = inliers_of-IsNear median samples;
          all_far = outliers_of-IsFar median samples;
          in_order = inliers_of-IsSorted median samples ordered;
          enough = ground arith;
          middle = ground arith;
          width = ground arith;
          narrow = ground arith;
        },
      ),
    )
