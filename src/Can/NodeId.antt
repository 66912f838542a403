-- ===== src/Can/NodeId.antt =====
-- The node number from the CANID resistor network (App/Platform/Src/app_can_id.c). The nine samples
-- are the readings of the ADC, `none` where it has none.
pub mod Median
pub mod Accept
use hpm53m1_g6618motor.Base.{
  ℕ, zero, suc, ◌+◌, ◌-◌, ◌*◌, ◌/◌, ◌%◌, Bool, true, false, not, ◌&&◌, ◌||◌, Option, none, some,
  List, [], ◌∷◌, ltb, leb, ◌==◌, if◌then◌else◌, get_or, length,
}

abbrev pub invalid_id : ℕ
invalid_id = 0xFF

abbrev pub min_code : ℕ
min_code = 100

abbrev pub max_code : ℕ
max_code = 65000

abbrev pub thresholds : List ℕ
thresholds = 6120 ∷ 14014 ∷ 19653 ∷ 28120 ∷ 34261 ∷ 36284 ∷ 38487 ∷ []

abbrev pub level_to_id : List ℕ
level_to_id = 0 ∷ 4 ∷ 1 ∷ 5 ∷ 2 ∷ 6 ∷ 3 ∷ 7 ∷ []

-- The loop of `app_can_id_decode`.
unfoldable pub level_of : List ℕ → ℕ → ℕ → ℕ
level_of [] raw level = level
level_of (t ∷ ts) raw level = level_of ts raw (if leb t raw then level + 1 else level)

unfoldable pub decode_id : ℕ → ℕ
unfolding level_of
decode_id raw =
    if leb raw min_code || ltb max_code raw
    then invalid_id
    else get_or level_to_id (level_of thresholds raw 0) invalid_id

-- The samples that the first loop of `app_can_id_read` keeps.
unfoldable pub in_window : List (Option ℕ) → List ℕ
in_window [] = []
in_window (none ∷ rs) = in_window rs
in_window (some raw ∷ rs) =
    let rest = in_window rs in if leb min_code raw && leb raw max_code then raw ∷ rest else rest

-- One round of the insertion sort: `key` goes in front of the larger samples at the end of the sorted
-- part, kept here from its end to its start.
unfoldable pub insert_down : ℕ → List ℕ → List ℕ
insert_down key [] = key ∷ []
insert_down key (x ∷ xs) = if ltb key x then x ∷ insert_down key xs else key ∷ x ∷ xs

unfoldable pub sort_down : List ℕ → List ℕ → List ℕ
sort_down sorted [] = sorted
sort_down sorted (key ∷ rest) = sort_down (insert_down key sorted) rest

-- `samples` after the sort, smallest first.
unfoldable pub reverse_onto : List ℕ → List ℕ → List ℕ
reverse_onto [] out = out
reverse_onto (x ∷ xs) out = reverse_onto xs (x ∷ out)

unfoldable pub sort_samples : List ℕ → List ℕ
sort_samples xs = reverse_onto (sort_down [] xs) []

unfoldable pub distance : ℕ → ℕ → ℕ
distance a b = if ltb b a then a - b else b - a

unfoldable pub inliers_of : ℕ → List ℕ → List ℕ
inliers_of median [] = []
inliers_of median (x ∷ xs) =
    let rest = inliers_of median xs in if leb (distance x median) 256 then x ∷ rest else rest

-- `s_boot_raw`, `s_boot_spread` and `s_boot_id`.
pub record BootId : Type 0 where
  pub raw : ℕ
  pub spread : ℕ
  pub id : ℕ

-- `app_can_id_read` on the nine readings.
unfoldable pub read_id : List (Option ℕ) → BootId
read_id readings =
    let samples = sort_samples (in_window readings) in
    let count = length samples in
    let median = get_or samples (count / 2) 0 in
    let inliers = inliers_of median samples in
    let inlier_count = length inliers in
    let center = get_or inliers (inlier_count / 2) 0 in
    let spread = get_or inliers (inlier_count - 1) 0 - get_or inliers 0 0 in
    if ltb count 5
    then record { raw = 0xFFFF; spread = 0xFFFF; id = invalid_id }
    else if ltb inlier_count 5
    then record {
      raw = median;
      spread = get_or samples (count - 1) 0 - get_or samples 0 0;
      id = invalid_id;
    }
    else record {
      raw = center;
      spread = spread;
      id = if leb spread 512 then decode_id center else invalid_id;
    }
