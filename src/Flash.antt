-- ===== src/Flash.antt =====
-- The flash backend that the firmware calls through a table of function pointers
-- (`boot_flash_ops_t` of Interface/intf_boot.h and `intf_flash_t` of intf_flash.h). The driver behind it is
-- a parameter: a device state, and the three calls with what a caller may rely on.
pub mod Ram
pub mod Nor
use hpm53m1_g6618motor.Base.{
  ℕ, ◌+◌, ◌%◌, ◌≤◌, ◌<◌, ◌≡◌, ◌⊎◌, Bool, true, Option, some, List, length, replicate, byte_at,
}

-- `read` answers `none`, and the others `false`, where the C function returns nonzero.
pub record FlashOps : Type 1 where
  pub Dev : Type 0
  pub sector_size : ℕ
  pub read : Dev → ℕ → ℕ → Option (List ℕ)
  pub erase_sector : Dev → ℕ → Bool × Dev
  pub program : Dev → ℕ → List ℕ → Bool × Dev

-- Two ranges of addresses without a common address.
abbrev pub Apart : ℕ → ℕ → ℕ → ℕ → Type 0
Apart a n b m = (a + n ≤ b) ⊎ (b + m ≤ a)

-- The documented behaviour of the backend, as far as the firmware relies on it.
pub record FlashLaws (o : FlashOps) : Type 0 where
  -- A successful read fills the buffer.
  pub read_length : (d : o.Dev) (a n : ℕ) (bs : List ℕ) → o.read d a n ≡ some bs → length bs ≡ n
  -- What it fills in are bytes.
  pub read_bytes :
      (d : o.Dev) (a n : ℕ) (bs : List ℕ) (i : ℕ) → o.read d a n ≡ some bs → byte_at bs i < 256
  -- A call of `program`, also one that fails half-way, touches its own range only.
  pub read_program_apart :
      (d : o.Dev) (a b n : ℕ) (bs : List ℕ)
      → Apart a n b (length bs)
      → o.read (o.program d b bs).1 a n ≡ o.read d a n
  -- Programming an erased range stores the data.
  pub read_programmed :
      (d : o.Dev) (a : ℕ) (bs : List ℕ)
      → ((i : ℕ) → byte_at bs i < 256)
      → (o.program d a bs).0 ≡ true
      → o.read d a (length bs) ≡ some (replicate (length bs) 255)
      → o.read (o.program d a bs).1 a (length bs) ≡ some bs
  -- After an erase every part of the sector reads 0xFF.
  pub read_erased :
      (d : o.Dev) (s a n : ℕ)
      → (o.erase_sector d s).0 ≡ true
      → s % o.sector_size ≡ 0
      → 1 ≤ n
      → s ≤ a
      → a + n ≤ s + o.sector_size
      → o.read (o.erase_sector d s).1 a n ≡ some (replicate n 255)
