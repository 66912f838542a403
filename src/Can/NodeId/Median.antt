-- ===== src/Can/NodeId/Median.antt =====
-- The node number that the samples give.
use mathlib.Core.List.{Perm, perm_middle, append-nil}
use mathlib.Core.List.Perm
use hpm53m1_g6618motor.Base.{ℕ, ◌≤◌, inl, inr, List, [], ◌∷◌, ◌++◌, arith, Bool-cases, ltb, subst}
use hpm53m1_g6618motor.Can.NodeId.{insert_down, sort_down, reverse_onto, sort_samples}

-- Every element is at most `b`; every element is at least `b`.
abbrev All≤ : ℕ → List ℕ → Type 0
All≤ b [] = Unit
All≤ b (x ∷ xs) = (x ≤ b) × All≤ b xs

abbrev IsDescending : List ℕ → Type 0
IsDescending [] = Unit
IsDescending (x ∷ xs) = All≤ x xs × IsDescending xs

abbrev pub All≥ : ℕ → List ℕ → Type 0
All≥ b [] = Unit
All≥ b (x ∷ xs) = (b ≤ x) × All≥ b xs

abbrev pub IsSorted : List ℕ → Type 0
IsSorted [] = Unit
IsSorted (x ∷ xs) = All≥ x xs × IsSorted xs

All≤-trans : (a b : ℕ) (xs : List ℕ) → a ≤ b → All≤ a xs → All≤ b xs
All≤-trans a b [] h k = tt
All≤-trans a b (x ∷ xs) h k = (omega arith, All≤-trans a b xs h k.1)

insert_down-All≤ : (b key : ℕ) (xs : List ℕ) → key ≤ b → All≤ b xs → All≤ b (insert_down key xs)
unfolding insert_down
insert_down-All≤ b key [] h k = (h, tt)
insert_down-All≤ b key (x ∷ xs) h k = ground (arith, insert_down-All≤ b key xs)

insert_down-IsDescending :
    (key : ℕ) (xs : List ℕ) → IsDescending xs → IsDescending (insert_down key xs)
unfolding insert_down
insert_down-IsDescending key [] d = (tt, tt)
insert_down-IsDescending key (x ∷ xs) d = elim (Bool-cases (ltb key x)) [
  | inl e ↦ rw e (insert_down-All≤ x key xs (ground arith) d.0, insert_down-IsDescending key xs d.1)
  | inr e ↦ rw e ((ground arith, All≤-trans x key xs (ground arith) d.0), d)
]

sort_down-IsDescending :
    (sorted rest : List ℕ) → IsDescending sorted → IsDescending (sort_down sorted rest)
unfolding sort_down
sort_down-IsDescending sorted [] d = d
sort_down-IsDescending sorted (key ∷ rest) d =
    sort_down-IsDescending (insert_down key sorted) rest (insert_down-IsDescending key sorted d)

-- Reversing a descending list onto a sorted one whose elements are no smaller.
Above : List ℕ → List ℕ → Type 0
Above [] out = Unit
Above (x ∷ xs) out = All≥ x out × Above xs out

Above-cons : (x : ℕ) (xs out : List ℕ) → All≤ x xs → Above xs out → Above xs (x ∷ out)
unfolding Above
Above-cons x [] out h k = tt
Above-cons x (y ∷ xs) out h k = ((h.0, k.0), Above-cons x xs out h.1 k.1)

Above-nil : (xs : List ℕ) → Above xs []
unfolding Above
Above-nil [] = tt
Above-nil (x ∷ xs) = (tt, Above-nil xs)

reverse_onto-IsSorted :
    (xs out : List ℕ)
    → IsDescending xs
    → IsSorted out
    → Above xs out
    → IsSorted (reverse_onto xs out)
unfolding reverse_onto Above
reverse_onto-IsSorted [] out d s a = s
reverse_onto-IsSorted (x ∷ xs) out d s a =
    reverse_onto-IsSorted xs (x ∷ out) d.1 (a.0, s) (Above-cons x xs out d.0 a.1)

insert_down-perm : (key : ℕ) (xs : List ℕ) → Perm (insert_down key xs) (key ∷ xs)
unfolding insert_down
insert_down-perm key [] = Perm.refl (key ∷ [])
insert_down-perm key (x ∷ xs) = elim (Bool-cases (ltb key x)) [
  | inl e ↦ rw e (Perm.trans (Perm.cons x (insert_down-perm key xs)) (Perm.swap key x xs))
  | inr e ↦ rw e (Perm.refl (key ∷ x ∷ xs))
]

sort_down-perm : (sorted rest : List ℕ) → Perm (sort_down sorted rest) (sorted ++ rest)
unfolding sort_down
sort_down-perm sorted [] = rw append-nil (Perm.refl sorted)
sort_down-perm sorted (key ∷ rest) = Perm.trans (sort_down-perm (insert_down key sorted) rest) (
    Perm.trans (Perm.append_right rest (insert_down-perm key sorted))
      (Perm.symm (perm_middle sorted rest)))

reverse_onto-perm : (xs out : List ℕ) → Perm (reverse_onto xs out) (xs ++ out)
unfolding reverse_onto
reverse_onto-perm [] out = Perm.refl out
reverse_onto-perm (x ∷ xs) out = Perm.trans (reverse_onto-perm xs (x ∷ out)) (perm_middle xs out)

-- The insertion sort of `app_can_id_read` returns the samples that it was given, in ascending order.
pub sort_samples_sorts : (xs : List ℕ) → IsSorted (sort_samples xs) × Perm (sort_samples xs) xs
unfolding sort_samples
sort_samples_sorts xs = (
  reverse_onto-IsSorted (sort_down [] xs) [] (sort_down-IsDescending [] xs tt) tt
      (Above-nil (sort_down [] xs)),
  Perm.trans
      (subst (Perm (sort_samples xs)) (append-nil (sort_down [] xs))
        (reverse_onto-perm (sort_down [] xs) []))
      (sort_down-perm [] xs),
)
