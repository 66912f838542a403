-- ===== src/Ota.antt =====
-- The application's side of an upgrade (App/Platform/Src/app_boot.c): the identity of the running slot,
-- the state of the slots, confirmation, and the request for DFU. `view` is the memory map, `build` the
-- slot that the image is linked for (`APP_SLOT_ID`), if any.
pub mod Request
mod Tests
use Prim.Native.Nat.{bit_xor}
use hpm53m1_g6618motor.Base.{
  ℕ, ◌+◌, Bool, true, false, not, ◌||◌, Option, none, some, List, leb, ltb, ◌==◌, if◌then◌else◌,
}
use hpm53m1_g6618motor.Crc.{boot_crc32}
use hpm53m1_g6618motor.Flash.{FlashOps}
use hpm53m1_g6618motor.Boot.Header.{
  image_header_valid, slot_address, header_size, slot_count, slot_none,
}
use hpm53m1_g6618motor.Boot.Control.{
  ControlRecord, control_load, control_save, confirm_running_slot,
}
use hpm53m1_g6618motor.Boot.Mailbox.{MailboxOps, request_dfu}
use hpm53m1_g6618motor.Loader.{header_at, control_load_or_default}

-- `app_boot_slot_id`
unfoldable pub slot_id : Option ℕ → ℕ
slot_id none = slot_none
slot_id (some slot) = slot

-- The results 0, -1 and -2 of `app_boot_self_verify`.
pub data Verdict : Type 0 where
  verified bad_header bad_crc : Verdict

-- `app_boot_status_t`
pub record Status : Type 0 where
  pub control_valid : Bool
  pub active_slot : ℕ
  pub pending_slot : ℕ
  pub attempts : ℕ
  pub confirmed : ℕ
  pub running_slot : ℕ
  pub upgrade_target_slot : ℕ
  pub upgrade_target_valid : Bool
  pub running_version : ℕ

module _ (ops : FlashOps) (view : ops.Dev → ℕ → ℕ → List ℕ) where
  open ops use {Dev}

  -- `app_boot_image_version`
  unfoldable pub image_version : Option ℕ → Dev → ℕ
  image_version none d = 0
  image_version (some slot) d =
      let hdr = header_at ops view d (slot_address slot) in
      if image_header_valid hdr slot then hdr.image_version else 0

  -- `app_boot_image_crc`
  unfoldable pub image_crc : Option ℕ → Dev → ℕ
  image_crc none d = 0
  image_crc (some slot) d =
      let hdr = header_at ops view d (slot_address slot) in
      if image_header_valid hdr slot then hdr.image_crc32 else 0

  -- `app_boot_self_verify`
  unfoldable pub self_verify : Option ℕ → Dev → Verdict
  self_verify none d = bad_header
  self_verify (some slot) d =
      let hdr = header_at ops view d (slot_address slot) in
      let crc = boot_crc32 (view d (slot_address slot + header_size) hdr.image_size) in
      if not (image_header_valid hdr slot)
      then bad_header
      else if crc == hdr.image_crc32
      then verified
      else bad_crc

  -- The status before the flash is looked at.
  unfoldable pub initial_status : Option ℕ → Dev → Status
  initial_status build d = record {
    control_valid = false;
    active_slot = 0;
    pending_slot = slot_none;
    attempts = 0;
    confirmed = 0;
    running_slot = slot_id build;
    upgrade_target_slot = 1;
    upgrade_target_valid = false;
    running_version = image_version build d;
  }

  -- The fields of the control record.
  unfoldable pub with_control : Option ControlRecord → Status → Status
  with_control none st = st
  with_control (some control) st = record st {
    control_valid = true;
    active_slot = control.active;
    pending_slot = control.pending;
    attempts = control.attempts;
    confirmed = control.confirmed;
  }

  -- `app_boot_get_status`, where `present` says whether there is a flash.
  unfoldable pub get_status : Bool → Option ℕ → Dev → Bool × Status
  get_status present build d =
      let st = with_control (control_load ops d) (initial_status build d) in
      let target =
        if ltb st.running_slot slot_count
        then bit_xor st.running_slot 1
        else bit_xor st.active_slot 1 in
      if not present then (false, initial_status build d) else (
        true,
        record st {
          upgrade_target_slot = target;
          upgrade_target_valid =
              image_header_valid (header_at ops view d (slot_address target)) target;
        },
      )

module _ (ops : FlashOps) where
  open ops use {Dev}

  -- `app_boot_confirm`
  unfoldable pub confirm : Bool → Option ℕ → Dev → Bool × Dev
  confirm present none d = (true, d)
  confirm present (some slot) d =
      if not present then (false, d) else confirm_running_slot ops d slot

  -- `app_boot_set_active`
  unfoldable pub set_active : Bool → Option ℕ → ℕ → Dev → Bool × Dev
  set_active present none slot d = (false, d)
  set_active present (some build) slot d =
      if not present || leb slot_count slot
      then (false, d)
      else control_save ops d (record (control_load_or_default ops d) {
        active = slot;
        pending = slot_none;
        attempts = 0;
        confirmed = 0;
      })

  -- `app_boot_request_dfu`, up to the reset that it ends in.
  unfoldable pub app_request_dfu :
      (box : MailboxOps) → Bool → Option ℕ → box.Gpr → Dev → box.Gpr × Dev
  app_request_dfu box present build g d = (request_dfu box g, (confirm present build d).1)
