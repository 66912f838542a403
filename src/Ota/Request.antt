-- ===== src/Ota/Request.antt =====
-- From the application's request for DFU to the bootloader's start (app_boot.c, boot_mailbox.c, and
-- bootloader/src/main.c).
use Prim.Native.Nat.{bit_xor}
use hpm53m1_g6618motor.Base.{
  ℕ, ◌<◌, ◌≡◌, ◌≢◌, refl, ◌∙◌, ap, true, false, Option, none, some, List, arith,
}
use hpm53m1_g6618motor.Flash.{FlashOps, FlashLaws}
use hpm53m1_g6618motor.Boot.Header.{slot_count, slot_none}
use hpm53m1_g6618motor.Boot.Control.{ControlRecord, control_load, confirm_running_slot}
use hpm53m1_g6618motor.Boot.Control.Save.{IsControlLog}
use hpm53m1_g6618motor.Boot.Control.Confirm.{already, saved, outcome, confirm_running_slot-Confirms}
use hpm53m1_g6618motor.Boot.Mailbox.{
  MailboxOps, MailboxLaws, mailbox_magic, mailbox_request_dfu, request_dfu, consume_dfu,
}
use hpm53m1_g6618motor.Loader.{slot_valid, control_load_or_default, decide, dfu_target}
use hpm53m1_g6618motor.Loader.Keep.{ViewLaws, slot_valid-control_save}
use hpm53m1_g6618motor.Loader.Saved.{loaded}
use hpm53m1_g6618motor.Loader.Interrupt.{bit_xor-other, decide-active}
use hpm53m1_g6618motor.Loader.Start.{jump, dfu, dfu_start, start}
use hpm53m1_g6618motor.Ota.{
  Status, confirm, app_request_dfu, get_status, slot_id, with_control, initial_status,
}

module _ (ops : FlashOps) (view : ops.Dev → ℕ → ℕ → List ℕ) (laws : FlashLaws ops)
    (keeps : ViewLaws ops view) (size : ops.sector_size ≡ 4096) where
  confirm_running_slot-slot_valid :
      (d : ops.Dev) (slot s : ℕ)
      → slot < slot_count
      → slot_valid ops view (confirm_running_slot ops d slot).1 s ≡ slot_valid ops view d s
  confirm_running_slot-slot_valid d slot s known = elim (outcome ops laws d slot known) [
    | already r e m w ↦ rw w refl
    | saved r range slots m w ↦ rw w (slot_valid-control_save ops view keeps size d r s)
  ]

  -- What a start reads after the confirmation.
  confirmed_reads :
      (d : ops.Dev) (slot : ℕ)
      → slot < slot_count
      → IsControlLog ops d
      → (confirm_running_slot ops d slot).0 ≡ true
      → let ctl = control_load_or_default ops (confirm_running_slot ops d slot).1 in
        (ctl.active ≡ slot) × (ctl.pending ≡ slot_none)
  confirmed_reads d slot known c ok =
      let d' = (confirm_running_slot ops d slot).1 in
      let ((r, read, m, v), log, again) =
        confirm_running_slot-Confirms ops laws size d slot known c ok in
      let e = loaded ops d' r read in
      (ap (λ c. c.active) e ∙ m.active, ap (λ c. c.pending) e ∙ m.pending)

module _ (ops : FlashOps) (view : ops.Dev → ℕ → ℕ → List ℕ) (box : MailboxOps) where
  consume_dfu-requested :
      (g : box.Gpr)
      → box.get g ≡ some (mailbox_magic, mailbox_request_dfu)
      → consume_dfu box g ≡ (true, (box.set g 0 0).1)
  unfolding consume_dfu
  consume_dfu-requested g e = rw (e, consume_dfu) refl

  consume_dfu-cleared : (g : box.Gpr) → box.get g ≡ some (0, 0) → consume_dfu box g ≡ (false, g)
  unfolding consume_dfu
  consume_dfu-cleared g e = rw (e, consume_dfu) refl

  start-requested :
      (g : box.Gpr) (d : ops.Dev)
      → box.get g ≡ some (mailbox_magic, mailbox_request_dfu)
      → start ops view box g d ≡ (dfu_start ops view box d, ((box.set g 0 0).1, d))
  unfolding start dfu_start
  start-requested g d e = rw (consume_dfu-requested g e, start) refl

  start-cleared :
      (g : box.Gpr) (d : ops.Dev) (slot : ℕ)
      → box.get g ≡ some (0, 0)
      → decide ops view d false ≡ (some slot, d)
      → start ops view box g d ≡ (jump slot, (g, d))
  unfolding start
  start-cleared g d slot e h =
      let c = consume_dfu-cleared g e in
      rw (ap (λ m. m.0) c, ap (λ m. m.0) h, ap (λ m. m.1) h, start)
        (ap (λ x. (jump slot, (x, d))) (ap (λ m. m.1) c))

  dfu_start-active :
      (d : ops.Dev) (slot : ℕ)
      → (control_load_or_default ops d).active ≡ slot
      → slot_valid ops view d slot ≡ true
      → dfu_start ops view box d ≡ dfu (bit_xor slot 1) true
  unfolding dfu_start dfu_target
  dfu_start-active d slot e v = rw (e, v) refl

  with_control-slot :
      (o : Option ControlRecord) (st : Status)
      → (with_control ops view o st).running_slot ≡ st.running_slot
  unfolding with_control
  with_control-slot none st = refl
  with_control-slot (some r) st = refl

  get_status-target :
      (d : ops.Dev) (slot : ℕ)
      → slot < slot_count
      → (get_status ops view true (some slot) d).1.upgrade_target_slot ≡ bit_xor slot 1
  unfolding get_status initial_status slot_id
  get_status-target d slot known =
      let e = with_control-slot (control_load ops d) (initial_status ops view (some slot) d) in
      rw e (ground arith)

  -- Where the application runs from a valid slot over a compact control log, its confirmation succeeds
  -- and the mailbox takes the request and the reset of it: the start after the request for DFU enters
  -- DFU with the other slot as its target, which is the target that the status had shown; and the start
  -- after that one runs the same slot again, without a change of the flash or the mailbox.
  pub app_request_dfu-start :
      (laws : FlashLaws ops) (keeps : ViewLaws ops view) (box_laws : MailboxLaws box)
      → ops.sector_size ≡ 4096
      → (slot : ℕ) (g : box.Gpr) (d : ops.Dev) → slot < slot_count
      → slot_valid ops view d slot ≡ true
      → IsControlLog ops d
      → (confirm ops true (some slot) d).0 ≡ true
      → (box.set g mailbox_magic mailbox_request_dfu).0 ≡ true
      → (box.set (request_dfu box g) 0 0).0 ≡ true
      → let (g', d') = app_request_dfu ops box true (some slot) g d in
        let (next, (g'', d'')) = start ops view box g' d' in
        (next ≡ dfu (bit_xor slot 1) true)
        × ((get_status ops view true (some slot) d).1.upgrade_target_slot ≡ bit_xor slot 1)
        × (slot ≢ bit_xor slot 1)
        × (start ops view box g'' d'' ≡ (jump slot, (g'', d'')))
  unfolding app_request_dfu confirm request_dfu
  app_request_dfu-start laws keeps box_laws size slot g d known valid c ok asked cleared =
      let g' = request_dfu box g in
      let d' = (confirm_running_slot ops d slot).1 in
      let (a, p) = confirmed_reads ops view laws keeps size d slot known c ok in
      let v = confirm_running_slot-slot_valid ops view laws keeps size d slot slot known ∙ valid in
      let first =
        start-requested g' d' (box_laws.get_set g mailbox_magic mailbox_request_dfu asked) in
      let run =
        decide-active ops view d' p (ap (slot_valid ops view d') a ∙ v)
        ∙ ap (λ s. (some s, d')) a in
      let second = start-cleared (box.set g' 0 0).1 d' slot (box_laws.get_set g' 0 0 cleared) run in
      (
        ap (λ m. m.0) first ∙ dfu_start-active d' slot a v,
        get_status-target d slot known,
        (bit_xor-other slot (omega arith)).1,
        rw first second,
      )
