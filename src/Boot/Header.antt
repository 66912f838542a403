-- ===== src/Boot/Header.antt =====
-- Slot addresses and the 64-byte image header (boot_meta.c, `boot_slot_address`,
-- `boot_slot_meta_address`, `boot_image_header_valid`).
use hpm53m1_g6618motor.Base.{
  ℕ, ◌+◌, ◌-◌, ◌≤◌, ◌<◌, ◌≡◌, Bool, true, false, not, ◌||◌, List, [], arith, leb, ltb, ◌==◌,
  if◌then◌else◌, push16, push32,
}
use hpm53m1_g6618motor.Crc.{boot_crc32}

abbrev pub flash_base : ℕ
flash_base = 0x80000000

abbrev pub flash_size : ℕ
flash_size = 0x00100000

abbrev pub bootloader_end : ℕ
bootloader_end = 0x8001D000

abbrev pub meta_a_addr : ℕ
meta_a_addr = 0x8001D000

abbrev pub meta_b_addr : ℕ
meta_b_addr = 0x8001E000

abbrev pub control_addr : ℕ
control_addr = 0x8001F000

abbrev pub slot_a_addr : ℕ
slot_a_addr = 0x80020000

abbrev pub slot_b_addr : ℕ
slot_b_addr = 0x8008F000

abbrev pub slot_size : ℕ
slot_size = 0x0006E000

abbrev pub meta_sector_size : ℕ
meta_sector_size = 0x1000

abbrev pub slot_count : ℕ
slot_count = 2

-- `BOOT_SLOT_NONE`
abbrev pub slot_none : ℕ
slot_none = 0xFF

unfoldable pub slot_address : ℕ → ℕ
slot_address slot_id = if slot_id == 0 then slot_a_addr else slot_b_addr

unfoldable pub slot_meta_address : ℕ → ℕ
slot_meta_address slot_id = if slot_id == 0 then meta_a_addr else meta_b_addr

-- `boot_image_header_t`; the seven reserved words are outside the checksum and never read.
pub record ImageHeader : Type 0 where
  pub signature : ℕ
  pub magic : ℕ
  pub header_version : ℕ
  pub slot_id : ℕ
  pub image_version : ℕ
  pub image_size : ℕ
  pub image_crc32 : ℕ
  pub load_addr : ℕ
  pub entry_offset : ℕ
  pub header_crc32 : ℕ

abbrev pub image_signature : ℕ
image_signature = 0x0A4D5048

abbrev pub image_magic : ℕ
image_magic = 0x47494D47

abbrev pub header_size : ℕ
header_size = 0x40

-- The first 32 bytes of the header (`BOOT_IMAGE_HEADER_CRC_LEN`).
unfoldable pub header_bytes : ImageHeader → List ℕ
header_bytes h = push32 h.signature (
    push32 h.magic (
      push16 h.header_version (
        push16 h.slot_id (
          push32 h.image_version (
            push32 h.image_size
              (push32 h.image_crc32 (push32 h.load_addr (push32 h.entry_offset []))))))))

-- `boot_image_header_valid` on a header that is not NULL.
unfoldable pub image_header_valid : ImageHeader → ℕ → Bool
image_header_valid h slot_id =
    if leb slot_count slot_id
    then false
    else if not (h.signature == image_signature)
        || not (h.magic == image_magic)
        || not (h.header_version == 1)
        || not (h.slot_id == slot_id)
        || not (h.entry_offset == header_size)
    then false
    else if not (h.load_addr == slot_address slot_id)
    then false
    else if h.image_size == 0 || ltb (slot_size - header_size) h.image_size
    then false
    else boot_crc32 (header_bytes h) == h.header_crc32

-- A header that is accepted for a slot names that slot, and its whole image, header included, lies
-- inside the slot: behind the bootloader and the logs, and clear of the other slot.
pub image_header_valid-fits :
    (h : ImageHeader) (slot_id : ℕ)
    → image_header_valid h slot_id ≡ true
    → (slot_id < slot_count)
      × (h.slot_id ≡ slot_id)
      × (h.load_addr ≡ slot_address slot_id)
      × (0 < h.image_size)
      × (h.load_addr + header_size + h.image_size ≤ slot_address slot_id + slot_size)
      × (control_addr + meta_sector_size ≤ h.load_addr)
      × (h.load_addr + header_size + h.image_size ≤ flash_base + flash_size)
      × (slot_id ≡ 0 → h.load_addr + header_size + h.image_size ≤ slot_address 1)
      × (boot_crc32 (header_bytes h) ≡ h.header_crc32)
unfolding image_header_valid slot_address
image_header_valid-fits h slot_id valid = ground arith
