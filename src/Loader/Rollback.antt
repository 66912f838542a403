-- ===== src/Loader/Rollback.antt =====
-- How long `boot_decide` tries a slot that no application confirms.
use hpm53m1_g6618motor.Base.{
  IsBytes, ℕ, zero, suc, ◌+◌, ◌-◌, ◌%◌, ◌≤◌, ◌<◌, ◌≡◌, ◌≢◌, refl, sym, ◌∙◌, ap, subst, true, false,
  Option, some, List, [], ◌∷◌, ◌++◌, arith, length, replicate,
}
use hpm53m1_g6618motor.Flash.{FlashOps, FlashLaws}
use hpm53m1_g6618motor.Boot.Header.{slot_none, control_addr}
use hpm53m1_g6618motor.Boot.Log.Success.{IsReliable, log_append-succeeds}
use hpm53m1_g6618motor.Boot.Control.{
  ControlRecord, control_load, control_save, encode_control, stamp_control,
}
use hpm53m1_g6618motor.Boot.Control.Codec.{InRange, stamp_control-InRange}
use hpm53m1_g6618motor.Boot.Control.Save.{IsControlLog}
use hpm53m1_g6618motor.Loader.{
  slot_valid, control_load_or_default, clear_pending, decide_active, decide,
}
use hpm53m1_g6618motor.Loader.Keep.{ViewLaws, slot_valid-control_save}
use hpm53m1_g6618motor.Loader.Saved.{Reads, control_save-Reads}
use hpm53m1_g6618motor.Loader.Decide.{IsUsable, control_load_or_default-IsUsable}

-- The slots that the next `n` starts choose, none of which is confirmed; `none` is DFU.
module _ (ops : FlashOps) (view : ops.Dev → ℕ → ℕ → List ℕ) where
  unfoldable pub boots : ℕ → ops.Dev → List (Option ℕ)
  boots zero d = []
  boots (suc n) d = let m = decide ops view d false in m.0 ∷ boots n m.1

  -- The flash after them.
  unfoldable pub after_boots : ℕ → ops.Dev → ops.Dev
  after_boots zero d = d
  after_boots (suc n) d = after_boots n (decide ops view d false).1

encode_control-IsBytes : (r : ControlRecord) → InRange r → IsBytes (encode_control r)
unfolding encode_control
encode_control-IsBytes r h = omega arith

length-encode_control : (r : ControlRecord) → length (encode_control r) ≡ 16
unfolding encode_control
length-encode_control r = refl

module _ (ops : FlashOps) (laws : FlashLaws ops) (reliable : IsReliable ops)
    (size : ops.sector_size ≡ 4096) where
  control_save-succeeds :
      (d : ops.Dev) (r : ControlRecord) → InRange r → (control_save ops d r).0 ≡ true
  unfolding control_save
  control_save-succeeds d r h =
      let s = stamp_control (control_load ops d) r in
      let n = length-encode_control s in
      log_append-succeeds ops laws reliable d control_addr (encode_control s) size
        (encode_control-IsBytes s (stamp_control-InRange (control_load ops d) r h))
        (omega (arith, n)) (omega (arith, n)) (rw n (omega arith)) (omega (arith, n)) refl
        (omega arith) (omega arith)

-- What a start finds: an unconfirmed slot under trial, and an active slot to fall back to.
pub record OnTrial (ops : FlashOps) (view : ops.Dev → ℕ → ℕ → List ℕ) (active pending attempts : ℕ)
    (d : ops.Dev) : Type 0 where
  pub log : IsControlLog ops d
  pub active_slot : (control_load_or_default ops d).active ≡ active
  pub pending_slot : (control_load_or_default ops d).pending ≡ pending
  pub tried : (control_load_or_default ops d).attempts ≡ attempts
  pub two_slots : pending ≢ slot_none
  pub pending_valid : slot_valid ops view d pending ≡ true
  pub active_valid : slot_valid ops view d active ≡ true

module _ (ops : FlashOps) (view : ops.Dev → ℕ → ℕ → List ℕ) (d : ops.Dev) where
  pub decide-tries :
      let ctl = control_load_or_default ops d in
      ctl.pending ≢ slot_none
      → slot_valid ops view d ctl.pending ≡ true
      → ctl.attempts < 3
      → decide ops view d false
        ≡ (some ctl.pending, (control_save ops d (record ctl { attempts = ctl.attempts + 1 })).1)
  unfolding decide
  decide-tries h v k =
      let e : ((control_load_or_default ops d).attempts + 1) % 256
          ≡ (control_load_or_default ops d).attempts + 1 =
        omega arith in
      rw (e) (ground arith)

  decide-gives_up :
      let ctl = control_load_or_default ops d in
      ctl.pending ≢ slot_none
      → slot_valid ops view d ctl.pending ≡ true
      → 3 ≤ ctl.attempts
      → decide ops view d false ≡ decide_active ops view ctl (clear_pending ops d).1
  unfolding decide
  decide-gives_up h v k = ground arith

module _ (ops : FlashOps) (view : ops.Dev → ℕ → ℕ → List ℕ) (laws : FlashLaws ops)
    (keeps : ViewLaws ops view) (reliable : IsReliable ops) (size : ops.sector_size ≡ 4096)
    (active pending : ℕ) where
  -- What the next start reads of a saved record.
  saved_again :
      (d : ops.Dev) (r : ControlRecord)
      → IsUsable r
      → IsControlLog ops d
      → let d' = (control_save ops d r).1 in IsControlLog ops d' × Reads ops d' r
  saved_again d r u c =
      control_save-Reads ops laws size d r u c
        (control_save-succeeds ops laws reliable size d r u.0)

  tries_again :
      (d : ops.Dev) (k : ℕ)
      → k < 3
      → OnTrial ops view active pending k d
      → let m = decide ops view d false in
        (m.0 ≡ some pending) × OnTrial ops view active pending (suc k) m.1
  tries_again d k small t =
      let ctl = control_load_or_default ops d in
      let tried = record ctl { attempts = ctl.attempts + 1 } in
      let (range, slots) = control_load_or_default-IsUsable ops laws d in
      let d' = (control_save ops d tried).1 in
      let e = t.tried in
      let (log, (a, p, n)) = saved_again d tried (omega arith, ground (arith, slots)) t.log in
      let same = slot_valid-control_save ops view keeps size d tried in
      let step =
        decide-tries ops view d (λ h. t.two_slots (sym t.pending_slot ∙ h))
          (ap (slot_valid ops view d) t.pending_slot ∙ t.pending_valid) (omega arith) in
      let left : OnTrial ops view active pending (suc k) d' = record {
        log = log;
        active_slot = a ∙ t.active_slot;
        pending_slot = p ∙ t.pending_slot;
        tried = omega (arith, n, e);
        two_slots = t.two_slots;
        pending_valid = same pending ∙ t.pending_valid;
        active_valid = same active ∙ t.active_valid;
      } in
      (
        ap (λ m. m.0) step ∙ ap some t.pending_slot,
        subst (OnTrial ops view active pending (suc k)) (sym (ap (λ m. m.1) step)) left,
      )

  clear_pending-slot_valid :
      (d : ops.Dev) (s : ℕ)
      → slot_valid ops view (clear_pending ops d).1 s ≡ slot_valid ops view d s
  unfolding clear_pending
  clear_pending-slot_valid d s = slot_valid-control_save ops view keeps size d _ s

  clear_pending-fields :
      (d : ops.Dev)
      → IsControlLog ops d
      → let d' = (clear_pending ops d).1 in
        let ctl = control_load_or_default ops d' in
        IsControlLog ops d'
        × ((ctl.active ≡ (control_load_or_default ops d).active)
            × (ctl.pending ≡ slot_none)
            × (ctl.attempts ≡ 0))
  unfolding clear_pending
  clear_pending-fields d c =
      let (range, slots) = control_load_or_default-IsUsable ops laws d in
      saved_again d (record (control_load_or_default ops d) { pending = slot_none; attempts = 0 })
        (omega arith, ground (arith, slots)) c

  decide_active-valid :
      (ctl : ControlRecord) (d : ops.Dev)
      → slot_valid ops view d ctl.active ≡ true
      → decide_active ops view ctl d ≡ (some ctl.active, d)
  unfolding decide_active
  decide_active-valid ctl d h = rw h refl

  falls_back :
      (d : ops.Dev) (k : ℕ)
      → 3 ≤ k
      → OnTrial ops view active pending k d
      → decide ops view d false ≡ (some active, (clear_pending ops d).1)
  falls_back d k big t =
      let ctl = control_load_or_default ops d in
      let e = t.tried in
      let d' = (clear_pending ops d).1 in
      decide-gives_up ops view d (λ h. t.two_slots (sym t.pending_slot ∙ h))
        (ap (slot_valid ops view d) t.pending_slot ∙ t.pending_valid) (omega arith)
      ∙ decide_active-valid ctl d' (
          clear_pending-slot_valid d ctl.active
          ∙ ap (slot_valid ops view d) t.active_slot
          ∙ t.active_valid)
      ∙ ap (λ a. (some a, d')) t.active_slot

  -- A pending slot that is valid but never confirmed is started until it has been tried three times in
  -- all, and then the active slot is started again, and the control record names no pending slot any
  -- more: on a flash whose calls succeed where they keep its preconditions (sectors of 4096 bytes, writes
  -- that are not empty, start at a multiple of four and stay in one sector of the flash), every upgrade
  -- that does not confirm itself is rolled back.
  pub boots_roll_back :
      (n k : ℕ) (d : ops.Dev)
      → n ≡ 3 - k
      → OnTrial ops view active pending k d
      → let d' = after_boots ops view (suc n) d in
        let ctl = control_load_or_default ops d' in
        (boots ops view (suc n) d ≡ replicate n (some pending) ++ some active ∷ [])
        × IsControlLog ops d'
        × (ctl.active ≡ active)
        × (ctl.pending ≡ slot_none)
  unfolding boots after_boots
  boots_roll_back zero k d e t =
      let step = falls_back d k (omega arith) t in
      let (log, (a, p, n)) = clear_pending-fields d t.log in
      rw (after_boots, step) (refl, log, a ∙ t.active_slot, p)
  boots_roll_back (suc n) k d e t =
      let (first, left) = tries_again d k (omega arith) t in
      let (rest, log, a, p) =
        boots_roll_back n (suc k) (decide ops view d false).1 (omega arith) left in
      (rw (first, rest) refl, log, a, p)
