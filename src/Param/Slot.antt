-- ===== src/Param/Slot.antt =====
-- The record that `app_param_store` builds in a slot (app_param.c).
use hpm53m1_g6618motor.Base.{
  ℕ, zero, suc, ◌+◌, ◌-◌, ◌≤◌, ◌<◌, ◌≡◌, refl, ◌∙◌, ap, true, List, [], ◌∷◌, ◌++◌, take, drop,
  length, replicate, length-append, length-replicate, push16, push32, get32, arith, IsBytes,
  IsBytes-append, IsBytes-replicate, IsBytes-push16, IsBytes-push32, byte_at-append_right,
}
use hpm53m1_g6618motor.Crc.{param_crc32, param_crc32-lt}
use hpm53m1_g6618motor.Param.{
  slot_bytes, data_max, param_magic, header_bytes_count, slot_length, slot_key, slot_front,
  new_slot, param_slot_valid, holds_key,
}

length-slot_front :
    (key : ℕ) (buf : List ℕ) → length buf ≤ data_max → length (slot_front key buf) ≡ 252
unfolding slot_front
length-slot_front key buf h =
    let a = length-append buf (replicate (data_max - length buf) 0) in
    let b = length-replicate {A = ℕ} (data_max - length buf) 0 in omega (arith, a, b)

pub length-new_slot :
    (key : ℕ) (buf : List ℕ) → length buf ≤ data_max → length (new_slot key buf) ≡ slot_bytes
unfolding new_slot
length-new_slot key buf h =
    let front = slot_front key buf in
    let a =
      length-append front
        (push32 (param_crc32 (take (header_bytes_count + length buf) front)) []) in
    let b = length-slot_front key buf h in omega (arith, a, b)

pub new_slot-IsBytes : (key : ℕ) (buf : List ℕ) → IsBytes buf → IsBytes (new_slot key buf)
unfolding new_slot slot_front
new_slot-IsBytes key buf h =
    let body = buf ++ replicate (data_max - length buf) 0 in
    let body_ok =
      IsBytes-append buf (replicate (data_max - length buf) 0) h
        (IsBytes-replicate (data_max - length buf) 0 (omega arith)) in
    let fields_ok =
      IsBytes-push16 1 (push16 (length buf) body) (IsBytes-push16 (length buf) body body_ok) in
    let front =
      IsBytes-push32 param_magic (push32 key (push16 1 (push16 (length buf) body)))
        (IsBytes-push32 key (push16 1 (push16 (length buf) body)) fields_ok) in
    IsBytes-append (slot_front key buf) _ front (IsBytes-push32 _ [] tt)

take-append : (n : ℕ) (xs ys : List ℕ) → n ≤ length xs → take n (xs ++ ys) ≡ take n xs
take-append zero xs ys h = refl
take-append (suc n) [] ys h = absurd (omega (arith, h))
take-append (suc n) (x ∷ xs) ys h = ap (λ t. x ∷ t) (take-append n xs ys (omega arith))

take-length : (xs : List ℕ) → take (length xs) xs ≡ xs
take-length [] = refl
take-length (x ∷ xs) = ap (λ t. x ∷ t) (take-length xs)

pub slot_length-new_slot :
    (key : ℕ) (buf : List ℕ) → length buf ≤ data_max → slot_length (new_slot key buf) ≡ length buf
unfolding new_slot slot_front
slot_length-new_slot key buf h = omega (arith, h)

slot_magic-new_slot : (key : ℕ) (buf : List ℕ) → get32 (new_slot key buf) 0 ≡ param_magic
unfolding new_slot slot_front
slot_magic-new_slot key buf = omega arith

pub slot_key-new_slot :
    (key : ℕ) (buf : List ℕ) → key < 4294967296 → slot_key (new_slot key buf) ≡ key
unfolding new_slot slot_front
slot_key-new_slot key buf h = omega (arith, h)

word32_bytes : (x : ℕ) → x < 4294967296 → get32 (push32 x []) 0 ≡ x
word32_bytes x h = omega (arith, h)

slot_crc-new_slot :
    (key : ℕ) (buf : List ℕ)
    → length buf ≤ data_max
    → get32 (new_slot key buf) 252
      ≡ param_crc32 (take (header_bytes_count + length buf) (new_slot key buf))
unfolding new_slot
slot_crc-new_slot key buf h =
    let front = slot_front key buf in
    let c = param_crc32 (take (header_bytes_count + length buf) front) in
    let n = length-slot_front key buf h in
    let b₀ = byte_at-append_right front (push32 c []) 252 0 (omega (arith, n)) in
    let b₁ = byte_at-append_right front (push32 c []) 253 1 (omega (arith, n)) in
    let b₂ = byte_at-append_right front (push32 c []) 254 2 (omega (arith, n)) in
    let b₃ = byte_at-append_right front (push32 c []) 255 3 (omega (arith, n)) in
    rw
      (
        b₀,
        b₁,
        b₂,
        b₃,
        take-append (header_bytes_count + length buf) front (push32 c []) (omega (arith, n)),
      )
      (word32_bytes c (param_crc32-lt _))

-- The slot holds the key that it was built for.
pub holds_key-new_slot :
    (key : ℕ) (buf : List ℕ)
    → key < 4294967296
    → length buf ≤ data_max
    → holds_key key (new_slot key buf) ≡ true
unfolding holds_key param_slot_valid
holds_key-new_slot key buf k h =
    let m = slot_magic-new_slot key buf in
    let n = slot_length-new_slot key buf h in
    let c = slot_crc-new_slot key buf h in
    let e = slot_key-new_slot key buf k in rw (m, n, c, e) (ground arith)

-- The data of the record is what was stored.
pub slot_data-new_slot :
    (key : ℕ) (buf : List ℕ)
    → length buf ≤ data_max
    → take (slot_length (new_slot key buf)) (drop header_bytes_count (new_slot key buf)) ≡ buf
unfolding new_slot slot_front
slot_data-new_slot key buf h =
    let pad = replicate {A = ℕ} (data_max - length buf) 0 in
    let a = length-append buf pad in
    rw (slot_length-new_slot key buf h) (
      take-append (length buf) (buf ++ pad) _ (omega (arith, a))
      ∙ take-append (length buf) buf pad (omega arith)
      ∙ take-length buf)
