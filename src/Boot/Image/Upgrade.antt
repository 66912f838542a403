-- ===== src/Boot/Image/Upgrade.antt =====
-- What an upgrade leaves in the image log of its slot.
use hpm53m1_g6618motor.Base.{
  ℕ, ◌%◌, ◌<◌, ◌≡◌, refl, ◌∙◌, ◌⊎◌, inl, inr, true, false, Option, none, some, List, [], ◌∷◌, ◌++◌,
  arith, all_ff,
}
use hpm53m1_g6618motor.Crc.{boot_crc32-lt}
use hpm53m1_g6618motor.Flash.{FlashOps, FlashLaws}
use hpm53m1_g6618motor.Boot.Log.Entries.{
  entries, IsCompact, absorb_all, absorb_all-append, log_scan-entries,
}
use hpm53m1_g6618motor.Boot.Log.{log_append}
use hpm53m1_g6618motor.Boot.Log.Append.{log_append_ok}
use hpm53m1_g6618motor.Boot.Image.{
  ImageRecord, state_flashing, state_ready, image_rec_magic, state_ready, image_crc, encode_image,
  decode_image, image_record_valid, absorb_image, seal_image, begin_record, ready_record,
  image_record_load, image_record_append, image_record_begin, image_record_ready,
}

-- The arguments of an upgrade fit their C types.
abbrev pub IsWord : ℕ → Type 0
IsWord n = n < 4294967296

record IsImage (r : ImageRecord) : Type 0 where
  magic : r.magic ≡ image_rec_magic
  state : (r.state ≡ state_flashing) ⊎ (r.state ≡ state_ready)
  image_size : IsWord r.image_size
  image_crc32 : IsWord r.image_crc32
  image_version : IsWord r.image_version
  reserved_0 : IsWord r.reserved_0
  reserved_1 : IsWord r.reserved_1

decode_image-encode_image :
    (r : ImageRecord) → IsImage r → IsWord r.record_crc32 → decode_image (encode_image r) ≡ r
unfolding decode_image encode_image
decode_image-encode_image r h k = ground arith

seal_image-IsImage : (r : ImageRecord) → IsImage r → IsImage (seal_image r)
unfolding seal_image
seal_image-IsImage r h = ground arith

encode_image-not_erased :
    (r : ImageRecord) → IsImage r → all_ff (encode_image (seal_image r)) ≡ false
unfolding encode_image seal_image
encode_image-not_erased r h = rw h.magic

seal_lt : (r : ImageRecord) → IsWord (seal_image r).record_crc32
seal_lt r = unfold seal_image image_crc in boot_crc32-lt _

seal_image-valid : (r : ImageRecord) → IsImage r → image_record_valid (seal_image r) ≡ true
seal_image-valid r h = unfold seal_image image_record_valid image_crc in ground arith

absorb_image-seal_image :
    (r : ImageRecord) (latest : Option ImageRecord)
    → IsImage r
    → absorb_image (encode_image (seal_image r)) latest ≡ some (seal_image r)
unfolding absorb_image
absorb_image-seal_image r latest h = rw (
  decode_image-encode_image (seal_image r) (seal_image-IsImage r h) (seal_lt r),
  seal_image-valid r h,
)

module _ (ops : FlashOps) (sector_addr : ℕ) where
  abbrev pub IsImageLog : ops.Dev → Type 0
  IsImageLog d = IsCompact ops sector_addr 32 128 d 0

  -- The image log loads a valid record with this state, size, checksum and version.
  abbrev pub Loads : ops.Dev → ℕ → ℕ → ℕ → ℕ → Type 0
  Loads d state image_size crc version =
      (r : ImageRecord) × ((image_record_load ops d sector_addr ≡ some r)
        × (image_record_valid r ≡ true)
        × (r.state ≡ state)
        × (r.image_size ≡ image_size)
        × (r.image_crc32 ≡ crc)
        × (r.image_version ≡ version))

  image_records : ops.Dev → List (List ℕ)
  image_records d = entries ops sector_addr 32 128 d 0

  image_record_load-records :
      (d : ops.Dev)
      → image_record_load ops d sector_addr ≡ absorb_all absorb_image (image_records d) none
  unfolding image_record_load image_records
  image_record_load-records d = log_scan-entries ops sector_addr 32 absorb_image 128 d 0 none

module _ (ops : FlashOps) (laws : FlashLaws ops) (size : ops.sector_size ≡ 4096) (sector_addr : ℕ)
    (aligned : sector_addr % 4096 ≡ 0) where
  append_sealed :
      (d : ops.Dev) (r : ImageRecord)
      → IsImage r
      → IsImageLog ops sector_addr d
      → (log_append ops d sector_addr (encode_image (seal_image r))).0 ≡ true
      → let d' = (log_append ops d sector_addr (encode_image (seal_image r))).1 in
        IsImageLog ops sector_addr d'
        × ((image_records ops sector_addr d'
              ≡ image_records ops sector_addr d ++ encode_image (seal_image r) ∷ [])
            ⊎ (image_records ops sector_addr d' ≡ encode_image (seal_image r) ∷ []))
  unfolding image_records encode_image
  append_sealed d r h c ok =
      log_append_ok ops laws sector_addr (encode_image (seal_image r)) 127 refl (omega arith)
        (omega arith) (omega arith) (rw size aligned) d c (encode_image-not_erased r h) ok

  image_record_load-append :
      (d : ops.Dev) (r : ImageRecord)
      → IsImage r
      → IsImageLog ops sector_addr d
      → (image_record_append ops d sector_addr r).0 ≡ true
      → let d' = (image_record_append ops d sector_addr r).1 in
        (image_record_load ops d' sector_addr ≡ some (seal_image r)) × IsImageLog ops sector_addr d'
  unfolding image_record_append
  image_record_load-append d r h c ok =
      let (kept, which) = append_sealed d r h c ok in
      (
        image_record_load-records ops sector_addr (image_record_append ops d sector_addr r).1
            ∙ elim which [
              | inl more ↦
                  rw
                    (
                      more,
                      absorb_all-append absorb_image (image_records ops sector_addr d)
                          (encode_image (seal_image r) ∷ []) none,
                    )
                    (absorb_image-seal_image r _ h)
              | inr alone ↦ rw alone (absorb_image-seal_image r none h)
            ],
        kept,
      )

  -- On a compact image log, after a successful `boot_image_record_begin` the log loads a FLASHING
  -- record, and after a successful `boot_image_record_ready` on top of it a READY record with the
  -- size, checksum and version given, whatever the log held before: an upgrade that stops in between
  -- is not taken for a finished one.
  pub image_record_load-upgrade :
      (d : ops.Dev) (image_size crc version : ℕ)
      → IsImageLog ops sector_addr d
      → IsWord image_size
      → IsWord crc
      → IsWord version
      → (image_record_begin ops d sector_addr image_size version).0 ≡ true
      → let d₁ = (image_record_begin ops d sector_addr image_size version).1 in
        (image_record_ready ops d₁ sector_addr image_size crc version).0 ≡ true
        → let d₂ = (image_record_ready ops d₁ sector_addr image_size crc version).1 in
          Loads ops sector_addr d₁ state_flashing image_size 0 version
          × Loads ops sector_addr d₂ state_ready image_size crc version
          × IsImageLog ops sector_addr d₂
  unfolding image_record_begin image_record_ready seal_image begin_record ready_record
  image_record_load-upgrade d image_size crc version c hs hc hv begun done =
      let (first, kept) =
        image_record_load-append d (begin_record image_size version)
          (unfold begin_record in ground arith) c begun in
      let (second, kept') =
        image_record_load-append (image_record_begin ops d sector_addr image_size version).1
          (ready_record image_size crc version) (unfold ready_record in ground arith) kept done in
      (
        (
          seal_image (begin_record image_size version),
          (
            first,
            seal_image-valid (begin_record image_size version)
                (unfold begin_record in ground arith),
            refl,
            refl,
            refl,
            refl,
          ),
        ),
        (
          seal_image (ready_record image_size crc version),
          (
            second,
            seal_image-valid (ready_record image_size crc version)
                (unfold ready_record in ground arith),
            refl,
            refl,
            refl,
            refl,
          ),
        ),
        kept',
      )
