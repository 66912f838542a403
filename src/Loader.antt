-- ===== src/Loader.antt =====
-- The bootloader (bootloader/src): the choice of the slot to start and the commit of an upgrade
-- (boot.c). The flash is the backend `ops`, and `view` what the CPU reads of it in the memory map.
pub mod Keep
pub mod Decide
pub mod Saved
pub mod Rollback
pub mod Writer
pub mod Dfu
pub mod Commit
pub mod Confine
pub mod Session
pub mod Upgrade
pub mod Interrupt
pub mod Start
pub mod Tests
use Prim.Native.Nat.{bit_xor}
use hpm53m1_g6618motor.Base.{
  ℕ, zero, suc, ◌+◌, ◌%◌, Bool, true, false, not, Option, none, some, List, [], ◌∷◌, ltb, leb, ◌==◌,
  if◌then◌else◌, get16, get32,
}
use hpm53m1_g6618motor.Crc.{boot_crc32}
use hpm53m1_g6618motor.Flash.{FlashOps}
use hpm53m1_g6618motor.Boot.Header.{
  ImageHeader, image_header_valid, slot_address, slot_meta_address, header_size, slot_count,
  slot_none,
}
use hpm53m1_g6618motor.Boot.Control.{ControlRecord, control_load, control_save, control_defaults}
use hpm53m1_g6618motor.Boot.Image.{image_record_begin, image_record_ready}

-- `BOOT_MAX_ATTEMPTS`
abbrev pub max_attempts : ℕ
max_attempts = 3

-- The header at the start of these bytes.
unfoldable pub decode_header : List ℕ → ImageHeader
decode_header bs = record {
  signature = get32 bs 0;
  magic = get32 bs 4;
  header_version = get16 bs 8;
  slot_id = get16 bs 10;
  image_version = get32 bs 12;
  image_size = get32 bs 16;
  image_crc32 = get32 bs 20;
  load_addr = get32 bs 24;
  entry_offset = get32 bs 28;
  header_crc32 = get32 bs 32;
}

module _ (ops : FlashOps) where
  open ops use {Dev}

  unfoldable pub control_load_or_default : Dev → ControlRecord
  control_load_or_default d = elim (control_load ops d) [ none ↦ control_defaults | some ctl ↦ ctl ]

  -- `boot_clear_pending`
  unfoldable pub clear_pending : Dev → Bool × Dev
  clear_pending d =
      control_save ops d (record (control_load_or_default d) { pending = slot_none; attempts = 0 })

  -- `boot_slot_mark_flashing` and `boot_slot_commit` with a header that is not NULL.
  unfoldable pub slot_mark_flashing : Dev → ℕ → ImageHeader → Bool × Dev
  slot_mark_flashing d slot_id hdr =
      if leb slot_count slot_id
      then (false, d)
      else image_record_begin ops d (slot_meta_address slot_id) hdr.image_size hdr.image_version

  unfoldable pub slot_commit : Dev → ℕ → ImageHeader → ℕ → Bool × Dev
  slot_commit d slot_id hdr image_crc32 =
      if leb slot_count slot_id
      then (false, d)
      else let (ok, d') =
          image_record_ready ops d (slot_meta_address slot_id) hdr.image_size image_crc32
            hdr.image_version in
        if not ok
        then (false, d')
        else control_save ops d'
            (record (control_load_or_default d') { pending = slot_id; attempts = 0; confirmed = 0 })

module _ (ops : FlashOps) (view : ops.Dev → ℕ → ℕ → List ℕ) where
  open ops use {Dev}

  unfoldable pub header_at : Dev → ℕ → ImageHeader
  header_at d base = decode_header (view d base header_size)

  -- `boot_slot_valid`
  unfoldable pub slot_valid : Dev → ℕ → Bool
  slot_valid d slot_id =
      let base = slot_address slot_id in
      let hdr = header_at d base in
      if leb slot_count slot_id
      then false
      else if not (image_header_valid hdr slot_id)
      then false
      else boot_crc32 (view d (base + header_size) hdr.image_size) == hdr.image_crc32

  -- The second half of `boot_decide`, from the active slot on; `none` is DFU.
  unfoldable pub decide_active : ControlRecord → Dev → Option ℕ × Dev
  decide_active ctl d =
      let other = bit_xor ctl.active 1 in
      if slot_valid d ctl.active
      then (some ctl.active, d)
      else if slot_valid d other
      then (
        some other,
        (control_save ops d
            (record ctl { active = other; pending = slot_none; attempts = 0; confirmed = 0 })).1,
      )
      else (none, d)

  -- `boot_decide`
  unfoldable pub decide : Dev → Bool → Option ℕ × Dev
  decide d force_dfu =
      let ctl = control_load_or_default ops d in
      if force_dfu
      then (none, d)
      else if ctl.pending == slot_none
      then decide_active ctl d
      else if not (slot_valid d ctl.pending)
      then decide_active ctl (clear_pending ops d).1
      else if ltb max_attempts (ctl.attempts + 1)
      then decide_active ctl (clear_pending ops d).1
      else (
        some ctl.pending,
        (control_save ops d (record ctl { attempts = (ctl.attempts + 1) % 256 })).1,
      )

  -- The slot that `main` hands to `dfu_run`, and whether DFU may time out.
  unfoldable pub dfu_target : Dev → ℕ × Bool
  dfu_target d =
      let ctl = control_load_or_default ops d in
      if slot_valid d ctl.active then (bit_xor ctl.active 1, true) else (ctl.active, false)
