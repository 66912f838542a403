-- ===== src/Loader/Commit.antt =====
-- What the commit of an upgrade (`boot_slot_commit`, `tud_dfu_manifest_cb`) leads to at the next start.
use hpm53m1_g6618motor.Base.{
  ℕ, zero, suc, ◌+◌, ◌*◌, ◌≤◌, ◌<◌, ◌≡◌, refl, sym, ◌∙◌, ap, inl, inr, true, false, some, List,
  arith, Bool-cases, leb, length,
}
use hpm53m1_g6618motor.Flash.{FlashOps, FlashLaws}
use hpm53m1_g6618motor.Boot.Header.{ImageHeader, control_addr, slot_meta_address, slot_count}
use hpm53m1_g6618motor.Boot.Log.{rounds_of, record_is_erased}
use hpm53m1_g6618motor.Boot.Log.Entries.{IsCompact, AllErased, erased_at}
use hpm53m1_g6618motor.Boot.Image.{
  ImageRecord, encode_image, seal_image, ready_record, image_record_append, image_record_ready,
}
use hpm53m1_g6618motor.Boot.Control.{control_save}
use hpm53m1_g6618motor.Boot.Control.Save.{IsControlLog}
use hpm53m1_g6618motor.Loader.{slot_valid, control_load_or_default, slot_commit, decide}
use hpm53m1_g6618motor.Loader.Keep.{
  ViewLaws, SameOutside, log_append-SameOutside, slot_valid-SameOutside, slot_valid-control_save,
}
use hpm53m1_g6618motor.Loader.Decide.{control_load_or_default-IsUsable}
use hpm53m1_g6618motor.Loader.Saved.{control_save-Reads}
use hpm53m1_g6618motor.Loader.Rollback.{decide-tries}

-- A log whose sector reads the same is compact as before.
module _ (ops : FlashOps) (sector z : ℕ) (d d' : ops.Dev) where
  -- The records from `off` on read the same.
  abbrev pub SameReads : ℕ → ℕ → Type 0
  SameReads n off =
      (o : ℕ)
      → off ≤ o
      → o + z ≤ off + n * z
      → ops.read d' (sector + o) z ≡ ops.read d (sector + o) z

  erased_at-same :
      (o : ℕ)
      → ops.read d' (sector + o) z ≡ ops.read d (sector + o) z
      → erased_at ops sector z d' o ≡ erased_at ops sector z d o
  unfolding record_is_erased
  erased_at-same o h = rw h refl

  AllErased-same :
      (n off : ℕ)
      → SameReads n off
      → AllErased ops sector z n d off
      → AllErased ops sector z n d' off
  unfolding AllErased
  AllErased-same zero off same h = tt
  AllErased-same (suc n) off same (e, h) = (
    erased_at-same off (same off (omega arith) (omega arith)) ∙ e,
    AllErased-same n (off + z) (λ o l k. same o (omega arith) (omega arith)) h,
  )

  pub IsCompact-same :
      (n off : ℕ)
      → SameReads n off
      → IsCompact ops sector z n d off
      → IsCompact ops sector z n d' off
  unfolding IsCompact
  IsCompact-same zero off same h = tt
  IsCompact-same (suc n) off same (inl (e, h)) = inl (
    erased_at-same off (same off (omega arith) (omega arith)) ∙ e,
    AllErased-same n (off + z) (λ o l k. same o (omega arith) (omega arith)) h,
  )
  IsCompact-same (suc n) off same (inr (bytes, e, r, h)) = inr (
    bytes,
    erased_at-same off (same off (omega arith) (omega arith)) ∙ e,
    same off (omega arith) (omega arith) ∙ r,
    IsCompact-same n (off + z) (λ o l k. same o (omega arith) (omega arith)) h,
  )

length-encode_image : (r : ImageRecord) → length (encode_image r) ≡ 32
unfolding encode_image
length-encode_image r = refl

pub slot_meta_address-le : (slot : ℕ) → slot_meta_address slot + 4096 ≤ control_addr
unfolding slot_meta_address
slot_meta_address-le slot = ground arith

module _ (ops : FlashOps) (view : ops.Dev → ℕ → ℕ → List ℕ) (keeps : ViewLaws ops view)
    (size : ops.sector_size ≡ 4096) where
  pub image_record_append-SameOutside :
      (d : ops.Dev) (sector : ℕ) (r : ImageRecord)
      → SameOutside ops view sector d (image_record_append ops d sector r).1
  unfolding image_record_append
  image_record_append-SameOutside d sector r =
      let s = encode_image (seal_image r) in
      let e = length-encode_image (seal_image r) in
      log_append-SameOutside ops view keeps size d sector s 128 (ap rounds_of e) (omega (arith, e))
        (omega (arith, e))

  -- A change below the control sector keeps the control log.
  pub IsControlLog-SameOutside :
      (sector : ℕ) (d d' : ops.Dev)
      → sector + 4096 ≤ control_addr
      → SameOutside ops view sector d d'
      → IsControlLog ops d
      → IsControlLog ops d'
  IsControlLog-SameOutside sector d d' below same c =
      IsCompact-same ops control_addr 16 d d' 256 0
        (λ o l k.
          keeps.view_read d' (control_addr + o) 16 (omega arith)
          ∙ ap some (same (control_addr + o) 16 (inr (omega arith)))
          ∙ sym (keeps.view_read d (control_addr + o) 16 (omega arith)))
        c

module _ (ops : FlashOps) (view : ops.Dev → ℕ → ℕ → List ℕ) where
  -- After the commit the slot is the one that the next start chooses.
  abbrev pub StartsNext : ℕ → ops.Dev → Type 0
  StartsNext slot d =
      IsControlLog ops d
      × (slot_valid ops view d slot ≡ true)
      × ((control_load_or_default ops d).pending ≡ slot)
      × ((decide ops view d false).0 ≡ some slot)

module _ (ops : FlashOps) (view : ops.Dev → ℕ → ℕ → List ℕ) (laws : FlashLaws ops)
    (keeps : ViewLaws ops view) (size : ops.sector_size ≡ 4096) where
  save_pending-StartsNext :
      (d : ops.Dev) (slot : ℕ)
      → slot < slot_count
      → slot_valid ops view d slot ≡ true
      → IsControlLog ops d
      → let r = record (control_load_or_default ops d) {
        pending = slot;
        attempts = 0;
        confirmed = 0;
      } in
        (control_save ops d r).0 ≡ true → StartsNext ops view slot (control_save ops d r).1
  save_pending-StartsNext d slot known valid c ok =
      let r = record (control_load_or_default ops d) {
        pending = slot;
        attempts = 0;
        confirmed = 0;
      } in
      let (range, slots) = control_load_or_default-IsUsable ops laws d in
      let d' = (control_save ops d r).1 in
      let (log, (a, p, t)) =
        control_save-Reads ops laws size d r (omega arith, ground (arith, slots)) c ok in
      let v = slot_valid-control_save ops view keeps size d r slot ∙ valid in
      let step =
        decide-tries ops view d' (λ h. absurd (omega (arith, p, h, known)))
          (ap (slot_valid ops view d') p ∙ v) (omega (arith, t)) in
      (log, v, p, ap (λ m. m.0) step ∙ ap some p)

  pub slot_commit-StartsNext :
      (d : ops.Dev) (slot : ℕ) (hdr : ImageHeader) (crc : ℕ)
      → slot_valid ops view d slot ≡ true
      → IsControlLog ops d
      → (slot_commit ops d slot hdr crc).0 ≡ true
      → StartsNext ops view slot (slot_commit ops d slot hdr crc).1
  unfolding slot_commit image_record_ready
  slot_commit-StartsNext d slot hdr crc valid c ok =
      let sector = slot_meta_address slot in
      let m =
        image_record_append ops d sector (ready_record hdr.image_size crc hdr.image_version) in
      let same =
        image_record_append-SameOutside ops view keeps size d sector
          (ready_record hdr.image_size crc hdr.image_version) in
      let low = slot_meta_address-le slot in
      let v =
        slot_valid-SameOutside ops view keeps size sector d m.1 slot (omega (arith, low)) same
        ∙ valid in
      let c' = IsControlLog-SameOutside ops view keeps size sector d m.1 low same c in
      elim (Bool-cases (leb slot_count slot)) [
        | inl big ↦ absurd (ground (arith, big))
        | inr known ↦ elim (Bool-cases m.0) [
          | inr failed ↦ absurd (cc (rw (known, failed) at ok))
          | inl done ↦
              rw (known, done)
                (save_pending-StartsNext m.1 slot (ground (arith, known)) v c'
                  (rw (known, done) at ok))
        ]
      ]
