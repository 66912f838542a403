-- ===== src/Boot/Image.antt =====
-- The image log of a slot (boot_meta.c, `image_record_valid`, `boot_image_record_load`,
-- `image_record_append`, `boot_image_record_begin`, `boot_image_record_ready`).
pub mod Upgrade
use hpm53m1_g6618motor.Base.{
  ℕ, Bool, true, false, not, ◌&&◌, ◌||◌, Option, none, some, List, [], ◌==◌, if◌then◌else◌, push32,
  get32,
}
use hpm53m1_g6618motor.Crc.{boot_crc32}
use hpm53m1_g6618motor.Flash.{FlashOps}
use hpm53m1_g6618motor.Boot.Log.{rounds_of, log_append, log_scan}

-- `boot_image_record_t`, 32 bytes.
pub record ImageRecord : Type 0 where
  pub magic : ℕ
  pub state : ℕ
  pub image_size : ℕ
  pub image_crc32 : ℕ
  pub image_version : ℕ
  pub reserved_0 : ℕ
  pub reserved_1 : ℕ
  pub record_crc32 : ℕ

abbrev pub image_rec_magic : ℕ
image_rec_magic = 0x494D4554

abbrev pub state_flashing : ℕ
state_flashing = 0x464C5348

abbrev pub state_ready : ℕ
state_ready = 0x52454144

abbrev pub image_rec_size : ℕ
image_rec_size = 32

-- The 28 bytes in front of the checksum, and then `tail`.
abbrev pub image_bytes : ImageRecord → List ℕ → List ℕ
image_bytes r tail = push32 r.magic (
    push32 r.state (
      push32 r.image_size (
        push32 r.image_crc32
          (push32 r.image_version (push32 r.reserved_0 (push32 r.reserved_1 tail))))))

unfoldable pub image_crc : ImageRecord → ℕ
image_crc r = boot_crc32 (image_bytes r [])

unfoldable pub encode_image : ImageRecord → List ℕ
encode_image r = image_bytes r (push32 r.record_crc32 [])

unfoldable pub decode_image : List ℕ → ImageRecord
decode_image bs = record {
  magic = get32 bs 0;
  state = get32 bs 4;
  image_size = get32 bs 8;
  image_crc32 = get32 bs 12;
  image_version = get32 bs 16;
  reserved_0 = get32 bs 20;
  reserved_1 = get32 bs 24;
  record_crc32 = get32 bs 28;
}

unfoldable pub image_record_valid : ImageRecord → Bool
image_record_valid r =
    if not (r.magic == image_rec_magic)
      || (not (r.state == state_flashing) && not (r.state == state_ready))
    then false
    else image_crc r == r.record_crc32

-- The body of the loop of `boot_image_record_load`: the last valid record wins.
unfoldable pub absorb_image : List ℕ → Option ImageRecord → Option ImageRecord
absorb_image bytes latest =
    let rec = decode_image bytes in if not (image_record_valid rec) then latest else some rec

-- The copy of `image_record_append` with its checksum filled in.
unfoldable pub seal_image : ImageRecord → ImageRecord
seal_image r = record r { record_crc32 = image_crc r }

unfoldable pub begin_record : ℕ → ℕ → ImageRecord
begin_record image_size image_version = record {
  magic = image_rec_magic;
  state = state_flashing;
  image_size = image_size;
  image_crc32 = 0;
  image_version = image_version;
  reserved_0 = 0;
  reserved_1 = 0;
  record_crc32 = 0;
}

unfoldable pub ready_record : ℕ → ℕ → ℕ → ImageRecord
ready_record image_size image_crc32 image_version = record {
  magic = image_rec_magic;
  state = state_ready;
  image_size = image_size;
  image_crc32 = image_crc32;
  image_version = image_version;
  reserved_0 = 0;
  reserved_1 = 0;
  record_crc32 = 0;
}

module _ (ops : FlashOps) where
  open ops use {Dev}

  -- `none` is the result -1.
  unfoldable pub image_record_load : Dev → ℕ → Option ImageRecord
  image_record_load d sector_addr =
      log_scan ops absorb_image (rounds_of image_rec_size) d sector_addr image_rec_size 0 none

  unfoldable pub image_record_append : Dev → ℕ → ImageRecord → Bool × Dev
  image_record_append d sector_addr rec =
      log_append ops d sector_addr (encode_image (seal_image rec))

  unfoldable pub image_record_begin : Dev → ℕ → ℕ → ℕ → Bool × Dev
  image_record_begin d sector_addr image_size image_version =
      image_record_append d sector_addr (begin_record image_size image_version)

  unfoldable pub image_record_ready : Dev → ℕ → ℕ → ℕ → ℕ → Bool × Dev
  image_record_ready d sector_addr image_size image_crc32 image_version =
      image_record_append d sector_addr (ready_record image_size image_crc32 image_version)
