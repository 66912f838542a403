-- ===== src/Param/Tests.antt =====
-- Runs of the parameter store on a flash in memory, and its theorems there.
use hpm53m1_g6618motor.Base.{
  ◌*◌, false, ℕ, zero, suc, ◌+◌, ◌-◌, ◌%◌, ap, sym, ◌∙◌, take, drop, arith, List, ◌≤◌, ◌≡◌, refl,
  true, none, some, [], ◌∷◌, leb, same_bytes,
}
use hpm53m1_g6618motor.Crc.{param_crc32}
use hpm53m1_g6618motor.Flash.Ram.{ram, ram-laws, window, overlay}
use hpm53m1_g6618motor.Param.{
  Store, slot_bytes, load, load_flex, load_from, store, erase, rewrite, write_back, target_slot,
  find_slot, new_slot, slot_front, holds_key, param_slot_valid,
}
use hpm53m1_g6618motor.Param.Place.{ReadsParts, IsPlaced}
use hpm53m1_g6618motor.Param.Stored.{load_flex-store, load_flex-store_other}
use hpm53m1_g6618motor.Param.Erased.{HeldOnce, load_flex-erase}
use hpm53m1_g6618motor.Param.Record.{
  record_store, record_load_prefix, record_load_prefix-record_store,
}
use hpm53m1_g6618motor.Param.Load.{Found, load_flex-Found}

drop-window :
    (mem : ℕ → ℕ) (a i n b k : ℕ) → b ≡ a + i → n ≡ k + i → drop i (window mem a n) ≡ window mem b k
unfolding window
drop-window mem a zero n b k h e =
    ap (window mem a) (omega (arith, e)) ∙ ap (λ x. window mem x k) (omega (arith, h))
drop-window mem a (suc i) zero b k h e = absurd (omega (arith, e))
drop-window mem a (suc i) (suc n) b k h e =
    drop-window mem (suc a) i n b k (omega (arith, h)) (omega (arith, e))

take-window : (mem : ℕ → ℕ) (a m n : ℕ) → m ≤ n → take m (window mem a n) ≡ window mem a m
unfolding window
take-window mem a zero n h = refl
take-window mem a (suc m) zero h = absurd (omega (arith, h))
take-window mem a (suc m) (suc n) h =
    ap (λ t. (mem a % 256) ∷ t) (take-window mem (suc a) m n (omega (arith, h)))

pub ram-ReadsParts : ReadsParts ram
ram-ReadsParts = record {
  read_part = λ d a n i m bs some_bytes h e.
      let v : window d a n ≡ bs = ap (λ o. elim o [ none ↦ window d a n | some x ↦ x ]) e in
      rw⁻¹ v (
        ap some (
          sym (
            ap (take m) (drop-window d a i n (a + i) (n - i) refl (omega (arith, h)))
            ∙ take-window d (a + i) m (n - i) (omega (arith, h)))));
}

abbrev state : Store
state = record {
  ready = true;
  sector_addr = 0x800FE000;
  slot_count = 2;
  stage = 0;
  slot = 0;
  error = 0;
}

-- Two keys stored into an erased sector.
abbrev stored : ℕ → ℕ
stored =
    (store ram (store ram state (λ a. 255) 5 (1 ∷ 2 ∷ 3 ∷ [])).1.0
      (store ram state (λ a. 255) 5 (1 ∷ 2 ∷ 3 ∷ [])).1.1 6 (9 ∷ [])).1.1

runs : Unit {0}
unfolding load load_flex load_from store erase rewrite write_back target_slot find_slot new_slot
    slot_front holds_key param_slot_valid param_crc32 window same_bytes overlay
runs = tt

load-stored : load ram state stored 6 1 ≡ some (9 ∷ [])
unfolding runs
load-stored = refl

load_flex-stored : load_flex ram state stored 5 8 ≡ some (1 ∷ 2 ∷ 3 ∷ [])
unfolding runs
load_flex-stored = refl

load_flex-Found_example :
    (true ≡ true) × (1 ≤ 8) × Found ram state stored 5 2 0 (λ n. leb n 8) (1 ∷ 2 ∷ 3 ∷ [])
load_flex-Found_example = load_flex-Found ram state stored 5 8 (1 ∷ 2 ∷ 3 ∷ []) load_flex-stored

-- An erased key is gone, and the other one stays.
load-erase :
    (load ram state (erase ram state stored 5).1.1 5 3 ≡ none)
    × (load ram state (erase ram state stored 5).1.1 6 1 ≡ some (9 ∷ []))
unfolding runs
load-erase = (refl, refl)

state-IsPlaced : IsPlaced ram state
state-IsPlaced = record { aligned = refl; fits = omega arith }

abbrev again : ℕ → ℕ
again = (store ram state stored 5 (4 ∷ 5 ∷ [])).1.1

store-again : (store ram state stored 5 (4 ∷ 5 ∷ [])).0 ≡ true
unfolding runs
store-again = refl

load_flex-store_example : load_flex ram state again 5 8 ≡ some (4 ∷ 5 ∷ [])
load_flex-store_example =
    load_flex-store ram ram-laws ram-ReadsParts state stored 5 (4 ∷ 5 ∷ []) 8 state-IsPlaced
      (omega arith) (omega arith) (omega arith) (omega arith) (omega arith) store-again

load_flex-store_other_example : load_flex ram state again 6 8 ≡ load_flex ram state stored 6 8
load_flex-store_other_example =
    load_flex-store_other ram ram-laws ram-ReadsParts state stored 5 6 (4 ∷ 5 ∷ []) 8 state-IsPlaced
      (omega arith) (omega arith) (λ h. absurd (omega (arith, h))) store-again

slot_of_five : holds_key 5 (window stored 0x800FE100 256) ≡ false
unfolding runs
slot_of_five = refl

slot_one_else :
    (cs : List ℕ)
    → ram.read stored (state.sector_addr + 1 * slot_bytes) slot_bytes ≡ some cs
    → holds_key 5 cs ≡ true
    → ⊥
slot_one_else cs e h =
    let first : List ℕ = window stored 0x800FE100 256 in
    let v : cs ≡ first = ap (λ o. elim o [ none ↦ first | some x ↦ x ]) (sym e) in
    cc (slot_of_five, h, ap (holds_key 5) v)

stored-HeldOnce : HeldOnce ram ram-laws ram-ReadsParts state stored 5
stored-HeldOnce zero zero bs cs k l e f h g = refl
stored-HeldOnce zero (suc zero) bs cs k l e f h g = absurd (slot_one_else cs f g)
stored-HeldOnce (suc zero) zero bs cs k l e f h g = absurd (slot_one_else bs e h)
stored-HeldOnce (suc zero) (suc zero) bs cs k l e f h g = refl
stored-HeldOnce (suc (suc i)) j bs cs k l e f h g = absurd (omega (arith, k))
stored-HeldOnce zero (suc (suc j)) bs cs k l e f h g = absurd (omega (arith, l))
stored-HeldOnce (suc zero) (suc (suc j)) bs cs k l e f h g = absurd (omega (arith, l))

erases_five : (erase ram state stored 5).0 ≡ true
unfolding runs
erases_five = refl

load_flex-erase_example :
    (load_flex ram state (erase ram state stored 5).1.1 5 8 ≡ none)
    × (load_flex ram state (erase ram state stored 5).1.1 6 8 ≡ load_flex ram state stored 6 8)
load_flex-erase_example =
    load_flex-erase ram ram-laws ram-ReadsParts state stored 5 6 8 state-IsPlaced stored-HeldOnce
      (λ h. absurd (omega (arith, h))) erases_five

record_again : (record_store ram state stored 5 (7 ∷ 8 ∷ []) 3).0 ≡ true
unfolding runs record_store
record_again = refl

record_load_prefix-record_store_example :
    let d' = (record_store ram state stored 5 (7 ∷ 8 ∷ []) 3).1.1 in
    (record_load_prefix ram state d' 5 4 1 3 ≡ some (7 ∷ 8 ∷ []))
    × (record_load_prefix ram state d' 5 4 1 9 ≡ none)
record_load_prefix-record_store_example =
    record_load_prefix-record_store ram ram-laws ram-ReadsParts state stored 5 (7 ∷ 8 ∷ []) 3 9 4 1
      state-IsPlaced (omega arith) (omega arith) (omega arith) (λ h. absurd (omega (arith, h)))
      (omega arith) (omega arith) (omega arith) record_again
