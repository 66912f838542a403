-- ===== src/Boot/Tests.antt =====
-- Runs of boot_meta.c on an ideal flash, and the theorems at them.
use hpm53m1_g6618motor.Base.{
  ℕ, ◌+◌, ◌≤◌, ◌<◌, ◌≡◌, refl, ◌⊎◌, true, false, none, some, List, [], same_bytes, ◌∷◌, arith,
}
use hpm53m1_g6618motor.Crc.{boot_crc32}
use hpm53m1_g6618motor.Crc.{param_crc32, boot_crc32, param_crc32-eq-boot_crc32}
use hpm53m1_g6618motor.Flash.Ram.{ram, ram-laws, worn, worn-laws, window, overlay}
use hpm53m1_g6618motor.Boot.Header.{
  ImageHeader, header_bytes, image_header_valid, image_header_valid-fits, slot_address,
  control_addr, meta_a_addr, slot_size, slot_count, header_size, meta_sector_size, flash_base,
  flash_size,
}
use hpm53m1_g6618motor.Boot.Log.{
  record_is_erased, next_erased, log_next_slot, log_verify, write_record, log_append, log_scan,
}
use hpm53m1_g6618motor.Boot.Log.Change.{AllErased-erase, AllErased-IsCompact}
use hpm53m1_g6618motor.Boot.Control.{
  ControlRecord, control_load, control_save, stamp_control, control_defaults, confirm_running_slot,
  control_crc, encode_control, decode_control, control_record_valid, seq_newer, prefer_newer,
  absorb_control, next_seq,
}
use hpm53m1_g6618motor.Boot.Control.Codec.{InRange, IsSlots}
use hpm53m1_g6618motor.Boot.Control.Save.{
  IsControlLog, control_load-control_save, control_save_keeps, control_save_full_loses,
}
use hpm53m1_g6618motor.Boot.Control.Confirm.{
  Confirms, Sound, control_load-Sound, confirm_running_slot-Confirms,
}
use hpm53m1_g6618motor.Boot.Image.{
  state_flashing, state_ready, encode_image, image_crc, seal_image, begin_record, ready_record,
  image_record_append, image_record_begin, image_record_ready,
}
use hpm53m1_g6618motor.Boot.Image.Upgrade.{IsImageLog, Loads, image_record_load-upgrade}

-- A flash whose control sector has just been erased.
abbrev blank : ℕ → ℕ
blank = (ram.erase_sector (λ a. 0) control_addr).1

blank-IsControlLog : IsControlLog ram blank
blank-IsControlLog = AllErased-IsCompact ram control_addr 16 256 blank 0 (
    AllErased-erase ram ram-laws control_addr 16 refl (omega arith) (omega arith) (λ a. 0) refl 256
      0 (omega arith))

abbrev first_boot : ControlRecord
first_boot = record {
  magic = 0;
  seq = 0;
  active = 1;
  pending = 255;
  attempts = 0;
  confirmed = 1;
  reserved = 0;
  crc32 = 0;
}

-- The functions that a run computes with.
runs : Unit {0}
unfolding boot_crc32 window overlay same_bytes record_is_erased next_erased log_next_slot log_verify
    write_record log_append log_scan control_crc encode_control decode_control control_record_valid
    seq_newer prefer_newer absorb_control next_seq stamp_control control_defaults control_load
    control_save confirm_running_slot
runs = tt

save_blank : (control_save ram blank first_boot).0 ≡ true
unfolding runs
save_blank = refl

first_boot-InRange : InRange first_boot
first_boot-InRange = omega arith

first_boot-IsSlots : IsSlots first_boot
first_boot-IsSlots = ground arith

-- The flash after the first save, and the record that it loads.
abbrev saved : ℕ → ℕ
saved = (control_save ram blank first_boot).1

control_load-control_save_example :
    (control_load ram saved ≡ some (stamp_control (control_load ram blank) first_boot))
    × IsControlLog ram saved
control_load-control_save_example =
    control_load-control_save ram ram-laws refl blank first_boot first_boot-InRange
      first_boot-IsSlots blank-IsControlLog save_blank

next_blank : next_erased ram 256 blank control_addr 16 0 ≡ some 0
unfolding runs
next_blank = refl

control_save_keeps_example :
    (control_load ram saved ≡ control_load ram blank)
    ⊎ ((bytes : List ℕ) × (ram.read saved (control_addr + 0) 16 ≡ some bytes)
        × (control_load ram saved ≡ absorb_control bytes (control_load ram blank)))
control_save_keeps_example =
    control_save_keeps ram ram-laws refl blank first_boot 0 blank-IsControlLog next_blank

confirm_blank : (confirm_running_slot ram blank 1).0 ≡ true
unfolding runs
confirm_blank = refl

abbrev confirmed : ℕ → ℕ
confirmed = (confirm_running_slot ram blank 1).1

confirm_running_slot-Confirms_example :
    ((r : ControlRecord) × (control_load ram confirmed ≡ some r)
      × Confirms 1 r
      × (control_record_valid r ≡ true))
    × IsControlLog ram confirmed
    × (confirm_running_slot ram confirmed 1 ≡ (true, confirmed))
confirm_running_slot-Confirms_example =
    confirm_running_slot-Confirms ram ram-laws refl blank 1 (omega arith) blank-IsControlLog
      confirm_blank

control_load-Sound_example : Sound (control_load ram saved)
control_load-Sound_example = control_load-Sound ram ram-laws saved

-- A control sector without an erased slot.
abbrev full : ℕ → ℕ
full a = 0

next_full : next_erased worn 256 full control_addr 16 0 ≡ none
unfolding runs
next_full = refl

control_save_full_loses_example :
    ((control_save worn full first_boot).0 ≡ false)
    × (control_load worn (control_save worn full first_boot).1 ≡ none)
control_save_full_loses_example =
    control_save_full_loses worn worn-laws refl full first_boot next_full refl refl

abbrev blank_image : ℕ → ℕ
blank_image = (ram.erase_sector (λ a. 0) meta_a_addr).1

blank-IsImageLog : IsImageLog ram meta_a_addr blank_image
blank-IsImageLog = AllErased-IsCompact ram meta_a_addr 32 128 blank_image 0 (
    AllErased-erase ram ram-laws meta_a_addr 32 refl (omega arith) (omega arith) (λ a. 0) refl 128 0
      (omega arith))

abbrev begun : ℕ → ℕ
begun = (image_record_begin ram blank_image meta_a_addr 1000 7).1

abbrev upgraded : ℕ → ℕ
upgraded = (image_record_ready ram begun meta_a_addr 1000 99 7).1

image_runs : Unit {0}
unfolding runs encode_image image_crc seal_image begin_record ready_record image_record_append
    image_record_begin image_record_ready
image_runs = tt

begin_blank : (image_record_begin ram blank_image meta_a_addr 1000 7).0 ≡ true
unfolding image_runs
begin_blank = refl

ready_begun : (image_record_ready ram begun meta_a_addr 1000 99 7).0 ≡ true
unfolding image_runs
ready_begun = refl

image_record_load-upgrade_example :
    Loads ram meta_a_addr begun state_flashing 1000 0 7
    × Loads ram meta_a_addr upgraded state_ready 1000 99 7
    × IsImageLog ram meta_a_addr upgraded
image_record_load-upgrade_example =
    image_record_load-upgrade ram ram-laws refl meta_a_addr refl blank_image 1000 99 7
      blank-IsImageLog (omega arith) (omega arith) (omega arith) begin_blank ready_begun

abbrev header : ImageHeader
header = record {
  signature = 0x0A4D5048;
  magic = 0x47494D47;
  header_version = 1;
  slot_id = 1;
  image_version = 3;
  image_size = 4096;
  image_crc32 = 0;
  load_addr = 0x8008F000;
  entry_offset = 0x40;
  header_crc32 = 831139501;
}

header_accepted : image_header_valid header 1 ≡ true
unfolding image_header_valid header_bytes boot_crc32 slot_address
header_accepted = refl

image_header_valid-fits_example :
    (1 < slot_count)
    × (header.slot_id ≡ 1)
    × (header.load_addr ≡ slot_address 1)
    × (0 < header.image_size)
    × (header.load_addr + header_size + header.image_size ≤ slot_address 1 + slot_size)
    × (control_addr + meta_sector_size ≤ header.load_addr)
    × (header.load_addr + header_size + header.image_size ≤ flash_base + flash_size)
    × (◌≡◌ {A = ℕ} 1 0 → header.load_addr + header_size + header.image_size ≤ slot_address 1)
    × (boot_crc32 (header_bytes header) ≡ header.header_crc32)
image_header_valid-fits_example = image_header_valid-fits header 1 header_accepted

-- The check value of the checksum, of the digits 1 to 9.
param_crc32-eq-boot_crc32_example :
    param_crc32 (49 ∷ 50 ∷ 51 ∷ 52 ∷ 53 ∷ 54 ∷ 55 ∷ 56 ∷ 57 ∷ [])
    ≡ boot_crc32 (49 ∷ 50 ∷ 51 ∷ 52 ∷ 53 ∷ 54 ∷ 55 ∷ 56 ∷ 57 ∷ [])
param_crc32-eq-boot_crc32_example =
    param_crc32-eq-boot_crc32 (49 ∷ 50 ∷ 51 ∷ 52 ∷ 53 ∷ 54 ∷ 55 ∷ 56 ∷ 57 ∷ [])
