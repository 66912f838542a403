-- ===== src/Base/Bytes.antt =====
-- The bytes of `uint16_t` and `uint32_t` fields in memory (the core is little-endian), and
-- `memcmp` on two buffers.
use Prim.Native.Nat.{ℕ, zero, suc, ◌+◌, ◌*◌, ◌/◌, ◌%◌, ◌<◌, compare, Ordering}
use mathlib.Core.Path.{◌≡◌, refl, ap}
use mathlib.Core.Bool.{Bool, true, false, ◌&&◌}
use mathlib.Core.List.{List, [], ◌∷◌, ◌++◌}
use hpm53m1_g6618motor.Base.Lists.{length, replicate}
use native.Mathlib.Omega.{arith}

-- The bytes of a field, before the bytes of those that follow it.
abbrev pub push16 : ℕ → List ℕ → List ℕ
push16 x rest = (x % 256) ∷ (x / 256 % 256) ∷ rest

abbrev pub push32 : ℕ → List ℕ → List ℕ
push32 x rest = (x % 256) ∷ (x / 256 % 256) ∷ (x / 65536 % 256) ∷ (x / 16777216 % 256) ∷ rest

abbrev pub word16 : ℕ → ℕ → ℕ
word16 a b = a + 256 * b

abbrev pub word32 : ℕ → ℕ → ℕ → ℕ → ℕ
word32 a b c d = a + 256 * b + 65536 * c + 16777216 * d

-- The byte at offset `i` of a buffer; a read past its end gives 0, and no caller makes one.
abbrev pub byte_at : List ℕ → ℕ → ℕ
byte_at [] i = 0
byte_at (b ∷ bs) zero = b
byte_at (b ∷ bs) (suc i) = byte_at bs i

abbrev pub get16 : List ℕ → ℕ → ℕ
get16 bs i = word16 (byte_at bs i) (byte_at bs (suc i))

abbrev pub get32 : List ℕ → ℕ → ℕ
get32 bs i =
    word32 (byte_at bs i) (byte_at bs (suc i)) (byte_at bs (suc (suc i)))
      (byte_at bs (suc (suc (suc i))))

-- `memcmp(a, b, n) == 0`, on buffers of one length.
unfoldable pub same_bytes : List ℕ → List ℕ → Bool
same_bytes [] [] = true
same_bytes [] (b ∷ bs) = false
same_bytes (a ∷ rest) [] = false
same_bytes (a ∷ rest) (b ∷ bs) =
    elim (compare a b) [ Ordering.eq ↦ true | _ ↦ false ] && same_bytes rest bs

pub eq_of_same_bytes : (as' bs : List ℕ) → same_bytes as' bs ≡ true → as' ≡ bs
unfolding same_bytes
eq_of_same_bytes [] [] h = refl
eq_of_same_bytes [] (b ∷ bs) h = ground arith
eq_of_same_bytes (a ∷ rest) [] h = ground arith
eq_of_same_bytes (a ∷ rest) (b ∷ bs) h = ground (arith, eq_of_same_bytes rest bs)

pub same_bytes_self : (bs : List ℕ) → same_bytes bs bs ≡ true
unfolding same_bytes
same_bytes_self [] = refl
same_bytes_self (b ∷ bs) = ground (arith, same_bytes_self bs)

-- Every byte is 0xFF: the erased state of the flash.
abbrev pub all_ff : List ℕ → Bool
all_ff [] = true
all_ff (b ∷ bs) = elim (compare b 255) [ Ordering.eq ↦ true | _ ↦ false ] && all_ff bs

-- Every element fits a byte.
abbrev pub IsBytes : List ℕ → Type 0
IsBytes [] = Unit {0}
IsBytes (b ∷ bs) = (b < 256) × IsBytes bs

pub byte_at-IsBytes : (bs : List ℕ) (i : ℕ) → IsBytes bs → byte_at bs i < 256
byte_at-IsBytes [] i h = omega arith
byte_at-IsBytes (b ∷ bs) zero h = h.0
byte_at-IsBytes (b ∷ bs) (suc i) h = byte_at-IsBytes bs i h.1

pub IsBytes-append : (xs ys : List ℕ) → IsBytes xs → IsBytes ys → IsBytes (xs ++ ys)
IsBytes-append [] ys h k = k
IsBytes-append (x ∷ xs) ys (b, h) k = (b, IsBytes-append xs ys h k)

pub IsBytes-replicate : (n b : ℕ) → b < 256 → IsBytes (replicate n b)
IsBytes-replicate zero b h = tt
IsBytes-replicate (suc n) b h = (h, IsBytes-replicate n b h)

pub IsBytes-push16 : (x : ℕ) (rest : List ℕ) → IsBytes rest → IsBytes (push16 x rest)
IsBytes-push16 x rest h = (omega arith, (omega arith, h))

pub IsBytes-push32 : (x : ℕ) (rest : List ℕ) → IsBytes rest → IsBytes (push32 x rest)
IsBytes-push32 x rest h = (omega arith, (omega arith, (omega arith, (omega arith, h))))

pub byte_at-append_right :
    (xs ys : List ℕ) (n i : ℕ) → n ≡ length xs + i → byte_at (xs ++ ys) n ≡ byte_at ys i
byte_at-append_right [] ys n i h = ap (byte_at ys) (omega (arith, h))
byte_at-append_right (x ∷ xs) ys zero i h = absurd (omega (arith, h))
byte_at-append_right (x ∷ xs) ys (suc n) i h = byte_at-append_right xs ys n i (omega (arith, h))
