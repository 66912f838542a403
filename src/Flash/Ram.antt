-- ===== src/Flash/Ram.antt =====
-- An ideal flash: every call succeeds, and the memory is a function of the address whose values are
-- bytes.
use hpm53m1_g6618motor.Base.{
  ℕ, zero, suc, ◌+◌, ◌-◌, ◌%◌, ◌≤◌, ◌<◌, ◌≡◌, refl, true, false, some, List, [], ◌∷◌, length,
  replicate, ltb, leb, if◌then◌else◌, arith, ◌&&◌, byte_at, ap,
}
use hpm53m1_g6618motor.Flash.{FlashOps, FlashLaws, Apart}

unfoldable pub window : (ℕ → ℕ) → ℕ → ℕ → List ℕ
window mem a zero = []
window mem a (suc n) = (mem a % 256) ∷ window mem (suc a) n

unfoldable pub overlay : (ℕ → ℕ) → ℕ → List ℕ → ℕ → ℕ
overlay mem b bs a = if leb b a && ltb a (b + length bs) then byte_at bs (a - b) else mem a

abbrev pub ram : FlashOps
ram = record {
  Dev = ℕ → ℕ;
  sector_size = 4096;
  read = λ mem a n. some (window mem a n);
  erase_sector = λ mem s. (true, λ a. if leb s a && ltb a (s + 4096) then 255 else mem a);
  program = λ mem b bs. (true, overlay mem b bs);
}

pub length-window : (mem : ℕ → ℕ) (a n : ℕ) → length (window mem a n) ≡ n
unfolding window
length-window mem a zero = refl
length-window mem a (suc n) = ap suc (length-window mem (suc a) n)

pub window-overlay-Apart :
    (mem : ℕ → ℕ) (a b n : ℕ) (bs : List ℕ)
    → Apart a n b (length bs)
    → window (overlay mem b bs) a n ≡ window mem a n
unfolding window overlay
window-overlay-Apart mem a b zero bs h = refl
window-overlay-Apart mem a b (suc n) bs h = ground (arith, window-overlay-Apart mem (suc a) b n bs)

pub window-erase-Apart :
    (mem : ℕ → ℕ) (a n s : ℕ)
    → Apart a n s 4096
    → window (λ b. if leb s b && ltb b (s + 4096) then 255 else mem b) a n ≡ window mem a n
unfolding window
window-erase-Apart mem a zero s h = refl
window-erase-Apart mem a (suc n) s h = ground (arith, window-erase-Apart mem (suc a) n s)

window-erased :
    (mem : ℕ → ℕ) (s a n : ℕ)
    → s ≤ a
    → a + n ≤ s + 4096
    → window (λ b. if leb s b && ltb b (s + 4096) then 255 else mem b) a n ≡ replicate n 255
unfolding window
window-erased mem s a zero h k = refl
window-erased mem s a (suc n) h k =
    ground (arith, window-erased mem s (suc a) n (omega arith) (omega arith))

window-eq :
    (f : ℕ → ℕ) (a : ℕ) (bs : List ℕ)
    → ((i : ℕ) → i < length bs → f (a + i) % 256 ≡ byte_at bs i)
    → window f a (length bs) ≡ bs
unfolding window
window-eq f a [] h = refl
window-eq f a (b ∷ bs) h =
    ground (arith, ap f first, h 0 (omega arith), window-eq f (suc a) bs rest)
  where
    first : a + 0 ≡ a
    first = omega arith

    rest : (i : ℕ) → i < length bs → f (suc a + i) % 256 ≡ byte_at bs i
    rest i k = let e : suc a + i ≡ a + suc i = omega arith in rw e (h (suc i) (omega arith))

overlay-byte_at :
    (mem : ℕ → ℕ) (b : ℕ) (bs : List ℕ) (i : ℕ)
    → i < length bs
    → byte_at bs i < 256
    → overlay mem b bs (b + i) % 256 ≡ byte_at bs i
unfolding overlay
overlay-byte_at mem b bs i h small =
    let e : b + i - b ≡ i = omega arith in ground (arith, ap (byte_at bs) e)

byte_at-window : (mem : ℕ → ℕ) (a n i : ℕ) → byte_at (window mem a n) i < 256
unfolding window
byte_at-window mem a zero i = omega arith
byte_at-window mem a (suc n) zero = omega arith
byte_at-window mem a (suc n) (suc i) = byte_at-window mem (suc a) n i

pub ram-laws : FlashLaws ram
ram-laws = record {
  read_length = λ mem a n bs h. ground (arith, length-window mem a n);
  read_bytes = λ mem a n bs i h. ground (arith, byte_at-window mem a n i);
  read_program_apart = λ mem a b n bs h. ap some (window-overlay-Apart mem a b n bs h);
  read_programmed = λ mem a bs small _ _.
      ap some (window-eq (overlay mem a bs) a bs (λ i h. overlay-byte_at mem a bs i h (small i)));
  read_erased = λ mem s a n _ _ _ h k. ap some (window-erased mem s a n h k);
}

-- A flash that erases but no longer programs.
abbrev pub worn : FlashOps
worn = record ram { program = λ mem b bs. (false, mem) }

pub worn-laws : FlashLaws worn
worn-laws = record {
  read_length = ram-laws.read_length;
  read_bytes = ram-laws.read_bytes;
  read_program_apart = λ mem a b n bs h. refl;
  read_programmed = λ mem a bs small done blank. absurd (ground arith);
  read_erased = ram-laws.read_erased;
}
