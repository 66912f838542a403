-- ===== src/Crc.antt =====
-- CRC-32 as both flash components compute it: `boot_crc32` of App/Platform/Src/boot_meta.c with a
-- branch for each bit, and `param_crc32` of App/Platform/Src/app_param.c with a mask in its place.
use Prim.Native.Nat.{bit_and, bit_xor, bit_xor-bitwise, digits, differ}
use hpm53m1_g6618motor.Base.{
  ℕ, zero, suc, ◌-◌, ◌/◌, ◌%◌, ◌≤◌, ◌<◌, ◌≡◌, refl, List, [], ◌∷◌, arith, ◌==◌, ap, ◌⊎◌, inl, inr,
  if◌then◌else◌,
}

abbrev poly : ℕ
poly = 0xEDB88320

-- One bit: `(crc & 1U) != 0U` selects `(crc >> 1U) ^ poly`.
boot_bit : ℕ → ℕ
boot_bit crc = if crc % 2 == 0 then crc / 2 else bit_xor (crc / 2) poly

-- One bit without a branch: `poly & (uint32_t)(-(int32_t)(crc & 1U))`.
param_bit : ℕ → ℕ
param_bit crc = bit_xor (crc / 2) (bit_and poly ((4294967296 - crc % 2) % 4294967296))

-- The eight rounds of either inner loop.
abbrev rounds : ℕ → (ℕ → ℕ) → ℕ → ℕ
rounds zero step crc = crc
rounds (suc n) step crc = rounds n step (step crc)

abbrev crc_from : (ℕ → ℕ) → ℕ → List ℕ → ℕ
crc_from step crc [] = crc
crc_from step crc (b ∷ bs) = crc_from step (rounds 8 step (bit_xor crc b)) bs

unfoldable pub boot_crc32 : List ℕ → ℕ
unfolding boot_bit
boot_crc32 bytes = 4294967295 - crc_from boot_bit 0xFFFFFFFF bytes

unfoldable pub param_crc32 : List ℕ → ℕ
unfolding param_bit
param_crc32 bytes = 4294967295 - crc_from param_bit 0xFFFFFFFF bytes

abbrev check_value : List ℕ
check_value = 49 ∷ 50 ∷ 51 ∷ 52 ∷ 53 ∷ 54 ∷ 55 ∷ 56 ∷ 57 ∷ []

-- The check value of CRC-32/ISO-HDLC over "123456789".
boot_crc32-check : boot_crc32 check_value ≡ 0xCBF43926
unfolding boot_crc32
boot_crc32-check = refl

pub boot_crc32-lt : (bytes : List ℕ) → boot_crc32 bytes < 4294967296
unfolding boot_crc32
boot_crc32-lt bytes = omega arith

pub param_crc32-lt : (bytes : List ℕ) → param_crc32 bytes < 4294967296
unfolding param_crc32
param_crc32-lt bytes = omega arith

differ-zero : (x : ℕ) → differ x 0 ≡ x
differ-zero zero = refl
differ-zero (suc x) = refl

digits-differ-zero : (n a : ℕ) → a ≤ n → digits (λ b. b) differ n a 0 ≡ a
digits-differ-zero zero zero h = refl
digits-differ-zero zero (suc a) h = absurd (omega arith)
digits-differ-zero (suc n) zero h = refl
digits-differ-zero (suc n) (suc a) h =
    omega (arith, digits-differ-zero n (suc a / 2) (omega arith), differ-zero (suc a % 2))

bit_xor-zero : (a : ℕ) → bit_xor a 0 ≡ a
bit_xor-zero a = simp bit_xor-bitwise (digits-differ-zero a a (omega arith))

-- The mask keeps all of the polynomial, or none of it.
mask-one : bit_and poly ((4294967296 - 1) % 4294967296) ≡ poly
mask-one = refl

mask-zero : bit_and poly ((4294967296 - 0) % 4294967296) ≡ 0
mask-zero = refl

param_bit-eq-boot_bit : (crc : ℕ) → param_bit crc ≡ boot_bit crc
unfolding param_bit boot_bit
param_bit-eq-boot_bit crc = elim (parity crc) [
  | inl even ↦ rw even (bit_xor-zero (crc / 2))
  | inr odd ↦ rw odd
]
  where
    parity : (n : ℕ) → (n % 2 ≡ 0) ⊎ (n % 2 ≡ 1)
    parity n = omega arith

rounds-eq : (n crc : ℕ) → rounds n param_bit crc ≡ rounds n boot_bit crc
rounds-eq zero crc = refl
rounds-eq (suc n) crc = rw (param_bit-eq-boot_bit crc) (rounds-eq n (boot_bit crc))

crc_from-eq :
    (crc : ℕ) (bytes : List ℕ) → crc_from param_bit crc bytes ≡ crc_from boot_bit crc bytes
crc_from-eq crc [] = refl
crc_from-eq crc (b ∷ bs) =
    rw (rounds-eq 8 (bit_xor crc b)) (crc_from-eq (rounds 8 boot_bit (bit_xor crc b)) bs)

-- The two implementations compute one checksum: for every list of bytes, `param_crc32` (with its
-- branchless mask) and `boot_crc32` (with its test of the low bit) give the same number.
pub param_crc32-eq-boot_crc32 : (bytes : List ℕ) → param_crc32 bytes ≡ boot_crc32 bytes
unfolding param_crc32 boot_crc32
param_crc32-eq-boot_crc32 bytes = ap (λ (t : ℕ). 4294967295 - t) (crc_from-eq 0xFFFFFFFF bytes)
