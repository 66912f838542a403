-- ===== src/Boot/Control/Confirm.antt =====
-- `boot_confirm_running_slot` (boot_meta.c): what the application writes once it runs.
use hpm53m1_g6618motor.Base.{
  ℕ, ◌<◌, ◌≡◌, inl, inr, true, Option, none, some, List, arith, Option-cases, Bool-cases, byte_at,
  ◌==◌, ◌&&◌, not, ◌≢◌, subst,
}
use hpm53m1_g6618motor.Flash.{FlashOps, FlashLaws}
use hpm53m1_g6618motor.Boot.Header.{control_addr, slot_none, slot_count}
use hpm53m1_g6618motor.Boot.Log.Scan.{log_scan-inv}
use hpm53m1_g6618motor.Boot.Control.{
  ControlRecord, decode_control, control_record_valid, absorb_control, prefer_newer, seq_newer,
  control_load, control_save, control_defaults, stamp_control, confirm_running_slot,
}
use hpm53m1_g6618motor.Boot.Control.Codec.{InRange, IsSlots}
use hpm53m1_g6618motor.Boot.Control.Save.{IsControlLog, control_load-control_save}

-- What holds of the record that a load returns, if it returns one.
abbrev pub Sound : Option ControlRecord → Type 0
Sound none = Unit
Sound (some r) = InRange r × (control_record_valid r ≡ true)

decode_control-InRange :
    (bs : List ℕ) → ((i : ℕ) → byte_at bs i < 256) → InRange (decode_control bs)
unfolding decode_control
decode_control-InRange bs h =
    omega
      (arith, h 0, h 1, h 2, h 3, h 4, h 5, h 6, h 7, h 8, h 9, h 10, h 11, h 12, h 13, h 14, h 15)

prefer_newer-Sound :
    (r : ControlRecord) (latest : Option ControlRecord)
    → Sound (some r)
    → Sound latest
    → Sound (prefer_newer r latest)
unfolding prefer_newer
prefer_newer-Sound r none h k = h
prefer_newer-Sound r (some l) h k = elim (Bool-cases (seq_newer r.seq l.seq)) [
  | inl e ↦ rw e h
  | inr e ↦ rw e k
]

absorb_control-Sound :
    (bs : List ℕ) (latest : Option ControlRecord)
    → ((i : ℕ) → byte_at bs i < 256)
    → Sound latest
    → Sound (absorb_control bs latest)
unfolding absorb_control
absorb_control-Sound bs latest small h =
    elim (Bool-cases (control_record_valid (decode_control bs))) [
      | inl v ↦
          rw v
            (prefer_newer-Sound (decode_control bs) latest (decode_control-InRange bs small, v) h)
      | inr v ↦ rw v h
    ]

-- The record that `boot_control_load` returns is valid, and its fields fit their C types.
pub control_load-Sound :
    (ops : FlashOps) → FlashLaws ops → (d : ops.Dev) → Sound (control_load ops d)
unfolding control_load
control_load-Sound ops laws d =
    log_scan-inv ops control_addr 16 absorb_control Sound
      (λ d' a bytes latest r h.
        absorb_control-Sound bytes latest (λ i. laws.read_bytes d' a 16 bytes i r) h)
      256 d 0 none tt

-- The record marks `slot_id` as the confirmed active slot, with nothing pending.
pub record Confirms (slot_id : ℕ) (r : ControlRecord) : Type 0 where
  pub active : r.active ≡ slot_id
  pub pending : r.pending ≡ slot_none
  pub confirmed : r.confirmed ≢ 0

module _ (ops : FlashOps) (d : ops.Dev) (slot_id : ℕ) (known : slot_id < slot_count) where
  confirm_again :
      (r : ControlRecord)
      → control_load ops d ≡ some r
      → Confirms slot_id r
      → confirm_running_slot ops d slot_id ≡ (true, d)
  unfolding confirm_running_slot
  confirm_again r e c = rw (e, confirm_running_slot) (ground arith)

pub Sound-some :
    {o : Option ControlRecord} (r : ControlRecord)
    → o ≡ some r
    → Sound o
    → InRange r × (control_record_valid r ≡ true)
Sound-some r e h = subst Sound e h

Confirms-stamp :
    (latest : Option ControlRecord) (slot_id : ℕ) (r : ControlRecord)
    → Confirms slot_id r
    → Confirms slot_id (stamp_control latest r)
unfolding stamp_control
Confirms-stamp latest slot_id r h = ground arith

-- What `boot_confirm_running_slot` does with a record to store and with none.
pub data Outcome (ops : FlashOps) (d : ops.Dev) (slot_id : ℕ) : Type 0 where
  already :
      (r : ControlRecord)
      → control_load ops d ≡ some r
      → Confirms slot_id r
      → confirm_running_slot ops d slot_id ≡ (true, d)
      → Outcome ops d slot_id
  saved :
      (r : ControlRecord)
      → InRange r
      → IsSlots r
      → Confirms slot_id r
      → confirm_running_slot ops d slot_id ≡ control_save ops d r
      → Outcome ops d slot_id

pub outcome :
    (ops : FlashOps) (laws : FlashLaws ops) (d : ops.Dev) (slot_id : ℕ)
    → slot_id < slot_count
    → Outcome ops d slot_id
unfolding confirm_running_slot
outcome ops laws d slot_id known = elim (Option-cases (control_load ops d)) [
  | inl e ↦
      saved (record control_defaults { active = slot_id; confirmed = 1 })
        (unfold control_defaults in omega arith) (unfold control_defaults in ground arith)
        (unfold control_defaults in ground arith) (rw (e, confirm_running_slot) (ground arith))
  | inr (r, e) ↦
      let (range, _) = Sound-some r e (control_load-Sound ops laws d) in
      elim (Bool-cases (r.active == slot_id && r.pending == slot_none && not (r.confirmed == 0))) [
        | inl t ↦ already r e (ground arith) (rw (e, confirm_running_slot) (ground arith))
        | inr t ↦
            saved (record r { active = slot_id; pending = slot_none; attempts = 0; confirmed = 1 })
              (omega arith) (ground arith) (ground arith)
              (rw (e, confirm_running_slot) (ground arith))
      ]
]

-- On a compact control log, if `boot_confirm_running_slot` succeeds for one of the two slots, the
-- control record that loads afterwards is valid and marks that slot active, confirmed and with
-- nothing pending; the log stays compact; and confirming again succeeds and writes nothing.
pub confirm_running_slot-Confirms :
    (ops : FlashOps) (laws : FlashLaws ops)
    → ops.sector_size ≡ 4096
    → (d : ops.Dev) (slot_id : ℕ) → slot_id < slot_count
    → IsControlLog ops d
    → (confirm_running_slot ops d slot_id).0 ≡ true
    → let d' = (confirm_running_slot ops d slot_id).1 in
      ((r : ControlRecord) × (control_load ops d' ≡ some r)
        × Confirms slot_id r
        × (control_record_valid r ≡ true))
      × IsControlLog ops d'
      × (confirm_running_slot ops d' slot_id ≡ (true, d'))
confirm_running_slot-Confirms ops laws size d slot_id known c ok =
    elim (outcome ops laws d slot_id known) [
      | already r e m w ↦ rw w ((r, e, m, (Sound-some r e (control_load-Sound ops laws d)).1), c, w)
      | saved r range slots m w ↦
          let d' = (control_save ops d r).1 in
          let (read, kept) =
            control_load-control_save ops laws size d r range slots c (rw w at ok) in
          let s = stamp_control (control_load ops d) r in
          let m' = Confirms-stamp (control_load ops d) slot_id r m in
          rw w (
            (s, read, m', (Sound-some s read (control_load-Sound ops laws d')).1),
            kept,
            confirm_again ops d' slot_id known s read m',
          )
    ]
