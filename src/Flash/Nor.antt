-- ===== src/Flash/Nor.antt =====
-- A flash that refuses the calls that `boot_flash_erase` and `boot_flash_program` of
-- bootloader/src/flash.c refuse, and the writes across sectors that intf_flash.h forbids; every other
-- call succeeds.
use hpm53m1_g6618motor.Base.{
  ℕ, ◌+◌, ◌%◌, ◌≤◌, ◌<◌, ◌≡◌, refl, byte_at, ap, Bool, true, false, inl, inr, some, List, length,
  replicate, ltb, leb, ◌==◌, ◌&&◌, if◌then◌else◌, Bool-cases,
}
use hpm53m1_g6618motor.Boot.Header.{flash_base, flash_size}
use hpm53m1_g6618motor.Flash.{FlashOps, FlashLaws, Apart}
use hpm53m1_g6618motor.Flash.Ram.{window, ram, ram-laws, window-overlay-Apart, window-erase-Apart}

abbrev pub erases : ℕ → Bool
erases s = s % 4096 == 0 && leb flash_base s && ltb s (flash_base + flash_size)

abbrev pub programs : ℕ → ℕ → Bool
programs a n =
    leb 1 n
    && a % 4 == 0
    && leb flash_base a
    && leb (a + n) (flash_base + flash_size)
    && leb (a % 4096 + n) 4096

abbrev pub nor : FlashOps
nor = record ram {
  erase_sector = λ mem s. if erases s then ram.erase_sector mem s else (false, mem);
  program = λ mem b bs. if programs b (length bs) then ram.program mem b bs else (false, mem);
}

pub window-nor_program :
    (mem : ℕ → ℕ) (a n b : ℕ) (bs : List ℕ)
    → Apart a n b (length bs)
    → window (nor.program mem b bs).1 a n ≡ window mem a n
window-nor_program mem a n b bs h = elim (Bool-cases (programs b (length bs))) [
  | inl e ↦ rw e (window-overlay-Apart mem a b n bs h)
  | inr e ↦ rw e refl
]

nor-read_programmed :
    (mem : ℕ → ℕ) (a : ℕ) (bs : List ℕ)
    → ((i : ℕ) → byte_at bs i < 256)
    → (nor.program mem a bs).0 ≡ true
    → nor.read mem a (length bs) ≡ some (replicate (length bs) 255)
    → nor.read (nor.program mem a bs).1 a (length bs) ≡ some bs
nor-read_programmed mem a bs small done blank = elim (Bool-cases (programs a (length bs))) [
  | inl e ↦ rw e (ram-laws.read_programmed mem a bs small refl blank)
  | inr e ↦ absurd (cc (rw e at done))
]

nor-read_erased :
    (mem : ℕ → ℕ) (s a n : ℕ)
    → (nor.erase_sector mem s).0 ≡ true
    → s % 4096 ≡ 0
    → 1 ≤ n
    → s ≤ a
    → a + n ≤ s + 4096
    → nor.read (nor.erase_sector mem s).1 a n ≡ some (replicate n 255)
nor-read_erased mem s a n done aligned filled h k = elim (Bool-cases (erases s)) [
  | inl e ↦ rw e (ram-laws.read_erased mem s a n refl aligned filled h k)
  | inr e ↦ absurd (cc (rw e at done))
]

pub nor-laws : FlashLaws nor
nor-laws = record {
  read_length = ram-laws.read_length;
  read_bytes = ram-laws.read_bytes;
  read_program_apart = λ mem a b n bs h. ap some (window-nor_program mem a n b bs h);
  read_programmed = nor-read_programmed;
  read_erased = nor-read_erased;
}

pub window-nor_erase :
    (mem : ℕ → ℕ) (a n s : ℕ)
    → Apart a n s 4096
    → window (nor.erase_sector mem s).1 a n ≡ window mem a n
window-nor_erase mem a n s h = elim (Bool-cases (erases s)) [
  | inl e ↦ rw e (window-erase-Apart mem a n s h)
  | inr e ↦ rw e refl
]
