-- ===== src/Loader/Upgrade.antt =====
-- What an upgrade over USB may change before it is committed, and what the answer `ok` of the manifest
-- means for the next start (bootloader/src/dfu.c).
use hpm53m1_g6618motor.Base.{
  ℕ, zero, suc, ◌+◌, ◌%◌, ◌<◌, ◌≡◌, ◌≢◌, refl, sym, ◌∙◌, ap, inl, inr, Bool, true, false, not, ◌||◌,
  Option, none, some, List, arith, Bool-cases, if◌then◌else◌, leb, ◌==◌,
}
use hpm53m1_g6618motor.Crc.{boot_crc32}
use hpm53m1_g6618motor.Flash.{FlashOps, FlashLaws}
use hpm53m1_g6618motor.Boot.Header.{
  control_addr, slot_address, slot_meta_address, header_size, slot_count, image_header_valid,
  image_header_valid-fits,
}
use hpm53m1_g6618motor.Boot.Log.{record_is_erased, log_scan}
use hpm53m1_g6618motor.Boot.Control.{control_load, absorb_control}
use hpm53m1_g6618motor.Boot.Control.Save.{IsControlLog}
use hpm53m1_g6618motor.Loader.{slot_valid, header_at, slot_commit}
use hpm53m1_g6618motor.Loader.Keep.{ViewLaws}
use hpm53m1_g6618motor.Loader.Confine.{writer_finish-Confined}
use hpm53m1_g6618motor.Loader.Commit.{SameReads, IsCompact-same, StartsNext, slot_commit-StartsNext}
use hpm53m1_g6618motor.Loader.Writer.{writer_finish}
use hpm53m1_g6618motor.Loader.Dfu.{
  Status, ok, err_firmware, err_write, err_verify, err_not_done, Answer, Session, download,
  download_fail, manifest_check, manifest,
}
use hpm53m1_g6618motor.Loader.Session.{
  IsSession, SameOutsideUpgrade, SameOutsideSlot-Upgrade, download-Keeps,
}

-- The body of the scan, on what the read gave.
scan_body-same {ℓ} :
    {R : Type ℓ}
    → (o : Option (List ℕ)) (latest : R) (f g : List ℕ → R) → ((bytes : List ℕ) → f bytes ≡ g bytes)
    → elim o [ none ↦ latest | some bytes ↦ f bytes ]
      ≡ elim o [ none ↦ latest | some bytes ↦ g bytes ]
scan_body-same none latest f g e = refl
scan_body-same (some bytes) latest f g e = e bytes

-- A scan finds the same in a sector that reads the same.
log_scan-same {ℓ} :
    {R : Type ℓ}
    → (ops : FlashOps) (absorb : List ℕ → Option R → Option R) (n sector z off : ℕ)
      (latest : Option R) (d d' : ops.Dev)
    → SameReads ops sector z d d' n off
    → log_scan ops absorb n d' sector z off latest ≡ log_scan ops absorb n d sector z off latest
unfolding log_scan record_is_erased
log_scan-same ops absorb zero sector z off latest d d' same = refl
log_scan-same ops absorb (suc n) sector z off latest d d' same =
    let e = same off (omega arith) (omega arith) in
    rw e (
      ap (λ t. if record_is_erased ops d (sector + off) z then latest else t)
        (scan_body-same (ops.read d (sector + off) z) latest _ _ (λ bytes.
          log_scan-same ops absorb n sector z (off + z) (absorb bytes latest) d d'
            (λ o l k. same o (omega arith) (omega arith)))))

module _ (ops : FlashOps) (view : ops.Dev → ℕ → ℕ → List ℕ) where
  -- What the session does not change: the other slot, and the control log.
  abbrev pub Protects : ℕ → ops.Dev → ops.Dev → Type 0
  Protects slot d d' =
      ((o : ℕ) → o ≢ slot → slot_valid ops view d' o ≡ slot_valid ops view d o)
      × (control_load ops d' ≡ control_load ops d)
      × (IsControlLog ops d → IsControlLog ops d')

module _ (ops : FlashOps) (view : ops.Dev → ℕ → ℕ → List ℕ) (keeps : ViewLaws ops view) where
  control_reads :
      (slot : ℕ) (d d' : ops.Dev)
      → SameOutsideUpgrade ops view slot d d'
      → SameReads ops control_addr 16 d d' 256 0
  unfolding slot_address slot_meta_address
  control_reads slot d d' same o l k =
      keeps.view_read d' (control_addr + o) 16 (omega arith)
      ∙ ap some (same (control_addr + o) 16 (ground arith) (ground arith))
      ∙ sym (keeps.view_read d (control_addr + o) 16 (omega arith))

  other_slot_valid :
      (slot o : ℕ) (d d' : ops.Dev)
      → slot < slot_count
      → o ≢ slot
      → SameOutsideUpgrade ops view slot d d'
      → slot_valid ops view d' o ≡ slot_valid ops view d o
  unfolding slot_valid header_at slot_address slot_meta_address
  other_slot_valid slot o d d' known other same =
      let base = slot_address o in
      let hdr = header_at ops view d base in
      elim (Bool-cases (leb slot_count o)) [
        | inl big ↦ rw big refl
        | inr small ↦
            let e = same base header_size (ground (arith, small)) (ground (arith, small)) in
            elim (Bool-cases (image_header_valid hdr o)) [
              | inr bad ↦ rw (small, e, bad) refl
              | inl good ↦
                  let fits = image_header_valid-fits hdr o good in
                  rw
                    (
                      small,
                      e,
                      good,
                      same (base + header_size) hdr.image_size (ground (arith, small, fits))
                          (ground (arith, small, fits)),
                    )
                    refl
            ]
      ]

  SameOutsideUpgrade-Protects :
      (slot : ℕ) (d d' : ops.Dev)
      → slot < slot_count
      → SameOutsideUpgrade ops view slot d d'
      → Protects ops view slot d d'
  unfolding control_load
  SameOutsideUpgrade-Protects slot d d' known same = (
    λ o other. other_slot_valid slot o d d' known other same,
    log_scan-same ops absorb_control 256 control_addr 16 0 none d d' (control_reads slot d d' same),
    λ c. IsCompact-same ops control_addr 16 d d' 256 0 (control_reads slot d d' same) c,
  )

module _ (ops : FlashOps) (view : ops.Dev → ℕ → ℕ → List ℕ) (keeps : ViewLaws ops view)
    (size : ops.sector_size ≡ 4096) where
  -- A block that the host sends, in whatever order and of whatever length, leaves the session one for
  -- the same slot, with its writer inside it; and whatever it answers, the other slot stays as valid
  -- as it was, the control record is read as before, and a compact control log stays compact.
  pub download-Protects :
      (block : ℕ) (bytes : List ℕ) (s : Session) (d : ops.Dev)
      → IsSession s
      → let (_, (s', d')) = download ops view block bytes s d in
        IsSession s' × (s'.slot ≡ s.slot) × Protects ops view s.slot d d'
  download-Protects block bytes s d i =
      let (_, (s', d')) = download ops view block bytes s d in
      let (i', e, same, on) = download-Keeps ops view keeps size block bytes s d i in
      (i', e, SameOutsideUpgrade-Protects ops view keeps s.slot d d' i.known same)

module _ (ops : FlashOps) (view : ops.Dev → ℕ → ℕ → List ℕ) (laws : FlashLaws ops)
    (keeps : ViewLaws ops view) (size : ops.sector_size ≡ 4096) where
  -- An answer that is `ok` only where the slot is to be started next.
  abbrev Commits : ℕ → Answer ops view → Type 0
  Commits slot (status, (s, d)) = status ≡ ok → StartsNext ops view slot d

  if_Commits :
      (slot : ℕ) (t u : Answer ops view) (c : Bool)
      → (c ≡ true → Commits slot t)
      → (c ≡ false → Commits slot u)
      → Commits slot (if c then t else u)
  if_Commits slot t u true a b = a refl
  if_Commits slot t u false a b = b refl

  download_fail-Commits :
      (slot : ℕ) (status : Status) (s : Session) (d : ops.Dev)
      → status ≢ ok
      → Commits slot (download_fail ops view status s d)
  unfolding download_fail
  download_fail-Commits slot status s d bad h = absurd (bad h)

  slot_valid-checked :
      (slot base : ℕ) (d : ops.Dev)
      → slot < slot_count
      → base ≡ slot_address slot
      → let hdr = header_at ops view d base in
        image_header_valid hdr slot ≡ true
        → (boot_crc32 (view d (base + header_size) hdr.image_size) == hdr.image_crc32) ≡ true
        → slot_valid ops view d slot ≡ true
  unfolding slot_valid
  slot_valid-checked slot base d known at valid crc =
      let v = rw at at valid in let c = rw at at crc in ground arith

  manifest_check-Commits :
      (now : ℕ) (s : Session) (d : ops.Dev)
      → s.slot < slot_count
      → s.base ≡ slot_address s.slot
      → IsControlLog ops d
      → Commits s.slot (manifest_check ops view now s d)
  unfolding manifest_check
  manifest_check-Commits now s d known at c =
      let hdr = header_at ops view d s.base in
      let crc = boot_crc32 (view d (s.base + header_size) hdr.image_size) in
      let m = slot_commit ops d s.slot hdr crc in
      let bad =
        not (image_header_valid hdr s.slot) || not (s.received == header_size + hdr.image_size) in
      if_Commits s.slot (download_fail ops view err_firmware s d) _ bad
        (λ e. download_fail-Commits s.slot err_firmware s d (λ h. cc))
        (λ good.
          if_Commits s.slot (download_fail ops view err_verify s d) _ (not (crc == hdr.image_crc32))
            (λ e. download_fail-Commits s.slot err_verify s d (λ h. cc))
            (λ same.
              if_Commits s.slot (download_fail ops view err_write s m.1)
                (ok, (record s { active = false; reset_at_ms = (now + 1200) % 4294967296 }, m.1))
                (not m.0) (λ e. download_fail-Commits s.slot err_write s m.1 (λ h. cc))
                (λ done h.
                  slot_commit-StartsNext ops view laws keeps size d s.slot hdr crc
                    (slot_valid-checked s.slot s.base d known at (ground (arith, good))
                      (ground (arith, same)))
                    c (ground (arith, done)))))

  -- A manifest that answers `ok`, on a session for a slot and over a compact control log, has made the
  -- slot's image the next to start: the slot is valid, the control record names it as pending, and the
  -- next start chooses it.
  pub manifest-StartsNext :
      (now : ℕ) (s : Session) (d : ops.Dev)
      → IsSession s
      → IsControlLog ops d
      → (manifest ops view now s d).0 ≡ ok
      → StartsNext ops view s.slot (manifest ops view now s d).1.1
  unfolding manifest
  manifest-StartsNext now s d i c =
      let m = writer_finish ops view s.writer d in
      let s₀ = record s { seen_traffic = true } in
      let s₁ = record s₀ { writer = m.1.0 } in
      if_Commits s.slot (err_not_done, (s₀, d)) _ (not s.active) (λ e h. absurd (cc))
        (λ on.
          let live : s.active ≡ true = ground (arith, on) in
          let (w, same) =
            writer_finish-Confined ops view keeps size (slot_address s.slot) s.writer d
              (i.writer live) in
          let (other, read, log) =
            SameOutsideUpgrade-Protects ops view keeps s.slot d m.1.1 i.known
              (SameOutsideSlot-Upgrade ops view keeps size s.slot d m.1.1 same) in
          if_Commits s.slot (download_fail ops view err_write s₁ m.1.1) _ (not m.0)
            (λ e. download_fail-Commits s.slot err_write s₁ m.1.1 (λ h. cc))
            (λ done. manifest_check-Commits now s₁ m.1.1 i.known (i.at_slot live) (log c)))
