-- ===== src/Loader/Session.antt =====
-- What a download session of the bootloader keeps: the other slot, and the compact control log
-- (bootloader/src/dfu.c).
use hpm53m1_g6618motor.Base.{
  ℕ, ◌+◌, ◌%◌, ◌<◌, ◌≡◌, ◌≢◌, refl, ◌∙◌, inl, inr, Bool, true, false, not, ◌&&◌, ◌||◌, List, arith,
  Bool-cases, if◌then◌else◌, ltb, leb, ◌==◌, length, take,
}
use hpm53m1_g6618motor.Flash.{FlashOps, Apart}
use hpm53m1_g6618motor.Boot.Header.{
  slot_address, slot_meta_address, slot_size, header_size, slot_count, image_header_valid,
  ImageHeader,
}
use hpm53m1_g6618motor.Boot.Image.{image_record_begin, begin_record}
use hpm53m1_g6618motor.Loader.{decode_header, slot_mark_flashing}
use hpm53m1_g6618motor.Loader.Keep.{ViewLaws}
use hpm53m1_g6618motor.Loader.Writer.{writer_begin, writer_write}
use hpm53m1_g6618motor.Loader.Confine.{
  IsWriter, SameOutsideSlot, writer_begin-IsWriter, writer_write-Confined,
}
use hpm53m1_g6618motor.Loader.Commit.{image_record_append-SameOutside}
use hpm53m1_g6618motor.Loader.Dfu.{
  after_start, download_rest, Status, ok, err_firmware, err_write, err_address, err_verify,
  err_not_done, Session, session_abort, download_fail, download_start, download_block, download,
  Answer,
}

-- The session is for one of the slots, and its writer stays in it.
pub record IsSession (s : Session) : Type 0 where
  pub known : s.slot < slot_count
  pub at_slot : s.active ≡ true → s.base ≡ slot_address s.slot
  pub writer : s.active ≡ true → IsWriter (slot_address s.slot) s.writer

pub session_abort-IsSession : (s : Session) → IsSession s → IsSession (session_abort s)
unfolding session_abort
session_abort-IsSession s i = record {
  known = i.known;
  at_slot = λ h. ground arith;
  writer = λ h. ground arith;
}

slot_address-aligned : (slot : ℕ) → slot_address slot % 4096 ≡ 0
unfolding slot_address
slot_address-aligned slot = ground arith

module _ (ops : FlashOps) (view : ops.Dev → ℕ → ℕ → List ℕ) where
  -- Outside the session's slot and the log of its image, everything reads as before.
  abbrev pub SameOutsideUpgrade : ℕ → ops.Dev → ops.Dev → Type 0
  SameOutsideUpgrade slot d d' =
      (a n : ℕ)
      → Apart a n (slot_address slot) slot_size
      → Apart a n (slot_meta_address slot) 4096
      → view d' a n ≡ view d a n

module _ (ops : FlashOps) (view : ops.Dev → ℕ → ℕ → List ℕ) (keeps : ViewLaws ops view)
    (size : ops.sector_size ≡ 4096) where
  -- An answer of a download for the same slot; the session goes on after `ok`.
  abbrev pub Keeps : Session → ops.Dev → Answer ops view → Type 0
  Keeps s d (status, (s', d')) =
      IsSession s'
      × (s'.slot ≡ s.slot)
      × SameOutsideUpgrade ops view s.slot d d'
      × (status ≡ ok → s'.active ≡ true)

  either_Keeps :
      (s : Session) (d : ops.Dev) (t u : Answer ops view) (c : Bool)
      → Keeps s d t
      → Keeps s d u
      → Keeps s d (if c then t else u)
  either_Keeps s d t u true a b = a
  either_Keeps s d t u false a b = b

  if_Keeps :
      (s : Session) (d : ops.Dev) (t u : Answer ops view) (c : Bool)
      → (c ≡ true → Keeps s d t)
      → Keeps s d u
      → Keeps s d (if c then t else u)
  if_Keeps s d t u true a b = a refl
  if_Keeps s d t u false a b = b

  -- The writer's slot is part of what the session may change.
  pub SameOutsideSlot-Upgrade :
      (slot : ℕ) (d d' : ops.Dev)
      → SameOutsideSlot ops view (slot_address slot) d d'
      → SameOutsideUpgrade ops view slot d d'
  SameOutsideSlot-Upgrade slot d d' same a n p q = same a n p

  download_fail-Keeps :
      (status : Status) (s₀ s : Session) (d₀ d : ops.Dev)
      → status ≢ ok
      → IsSession s
      → s.slot ≡ s₀.slot
      → SameOutsideUpgrade ops view s₀.slot d₀ d
      → Keeps s₀ d₀ (download_fail ops view status s d)
  unfolding download_fail session_abort
  download_fail-Keeps status s₀ s d₀ d bad i e same =
      (session_abort-IsSession s i, e, same, λ h. absurd (bad h))

  download_block-Keeps :
      (block : ℕ) (bytes : List ℕ) (s : Session) (d : ops.Dev)
      → IsSession s
      → s.active ≡ true
      → Keeps s d (download_block ops view block bytes s d)
  unfolding download_block
  download_block-Keeps block bytes s d i e =
      let base = slot_address s.slot in
      let m = writer_write ops view (s.base + s.received) bytes s.writer d in
      let (w, same) =
        writer_write-Confined ops view keeps size base (s.base + s.received) bytes s.writer d
          (slot_address-aligned s.slot) (i.writer e) in
      let s₁ = record s { writer = m.1.0 } in
      let j : IsSession s₁ = record { known = i.known; at_slot = i.at_slot; writer = λ h. w } in
      let t = SameOutsideSlot-Upgrade s.slot d m.1.1 same in
      let s₂ = record s₁ {
        received = s.received + length bytes;
        expect_block = s.expect_block + 1;
      } in
      let j₂ : IsSession s₂ = record { known = i.known; at_slot = i.at_slot; writer = λ h. w } in
      either_Keeps s d (download_fail ops view err_write s d) _ (not (block == s.expect_block))
        (download_fail-Keeps err_write s s d d (λ h. cc) i refl (λ a n p q. refl))
        (either_Keeps s d (download_fail ops view err_address s d) _
          (ltb slot_size (s.received + length bytes))
          (download_fail-Keeps err_address s s d d (λ h. cc) i refl (λ a n p q. refl))
          (either_Keeps s d (download_fail ops view err_write s₁ m.1.1) (ok, (s₂, m.1.1)) (not m.0)
            (download_fail-Keeps err_write s s₁ d m.1.1 (λ h. cc) j refl t) (j₂, refl, t, λ h. e)))

  slot_mark_flashing-SameOutside :
      (d : ops.Dev) (slot : ℕ) (hdr : ImageHeader)
      → SameOutsideUpgrade ops view slot d (slot_mark_flashing ops d slot hdr).1
  unfolding slot_mark_flashing image_record_begin
  slot_mark_flashing-SameOutside d slot hdr a n p q = elim (Bool-cases (leb slot_count slot)) [
    | inl big ↦ rw big refl
    | inr known ↦ rw known (
        image_record_append-SameOutside ops view keeps size d (slot_meta_address slot)
          (begin_record hdr.image_size hdr.image_version) a n q)
  ]

  download_start-Keeps :
      (block : ℕ) (bytes : List ℕ) (s : Session) (d : ops.Dev)
      → IsSession s
      → Keeps s d (download_start ops view block bytes s d)
  unfolding download_start
  download_start-Keeps block bytes s d i =
      let hdr = decode_header (take header_size bytes) in
      let base = slot_address s.slot in
      let begun = record s {
        base = base;
        received = 0;
        expect_block = 0;
        writer = writer_begin base s.writer;
      } in
      let m = slot_mark_flashing ops d s.slot hdr in
      let j : IsSession begun = record {
        known = i.known;
        at_slot = λ h. refl;
        writer = λ h. writer_begin-IsWriter base s.writer;
      } in
      let j' : IsSession (record begun { active = true }) = record {
        known = i.known;
        at_slot = λ h. refl;
        writer = λ h. writer_begin-IsWriter base s.writer;
      } in
      let same = slot_mark_flashing-SameOutside d s.slot hdr in
      either_Keeps s d (download_fail ops view err_firmware s d) _
        (not (block == 0) || ltb (length bytes) header_size)
        (download_fail-Keeps err_firmware s s d d (λ h. cc) i refl (λ a n p q. refl))
        (either_Keeps s d (download_fail ops view err_firmware s d) _
          (not (image_header_valid hdr s.slot))
          (download_fail-Keeps err_firmware s s d d (λ h. cc) i refl (λ a n p q. refl))
          (either_Keeps s d (download_fail ops view err_write begun m.1)
            (ok, (record begun { active = true }, m.1)) (not m.0)
            (download_fail-Keeps err_write s begun d m.1 (λ h. cc) j refl same)
            (j', refl, same, λ h. refl)))

  after_start-Keeps :
      (block : ℕ) (bytes : List ℕ) (s : Session) (d : ops.Dev) (m : Answer ops view)
      → Keeps s d m
      → Keeps s d (after_start ops view block bytes m)
  unfolding after_start
  after_start-Keeps block bytes s d (ok, (s₁, d₁)) (i, e, same, on) =
      let (i', e', same', on') = download_block-Keeps block bytes s₁ d₁ i (on refl) in
      (i', e' ∙ e, λ a n p q. same' a n (rw e p) (rw e q) ∙ same a n p q, on')
  after_start-Keeps block bytes s d (err_firmware, (s₁, d₁)) k = k
  after_start-Keeps block bytes s d (err_write, (s₁, d₁)) k = k
  after_start-Keeps block bytes s d (err_address, (s₁, d₁)) k = k
  after_start-Keeps block bytes s d (err_verify, (s₁, d₁)) k = k
  after_start-Keeps block bytes s d (err_not_done, (s₁, d₁)) k = k

  download_rest-Keeps :
      (block : ℕ) (bytes : List ℕ) (s : Session) (d : ops.Dev)
      → IsSession s
      → Keeps s d (download_rest ops view block bytes s d)
  unfolding download_rest
  download_rest-Keeps block bytes s d i =
      if_Keeps s d (download_block ops view block bytes s d) _ s.active
        (download_block-Keeps block bytes s d i)
        (after_start-Keeps block bytes s d (download_start ops view block bytes s d)
          (download_start-Keeps block bytes s d i))

  pub download-Keeps :
      (block : ℕ) (bytes : List ℕ) (s : Session) (d : ops.Dev)
      → IsSession s
      → Keeps s d (download ops view block bytes s d)
  unfolding download session_abort
  download-Keeps block bytes s d i =
      let s₀ = record s { seen_traffic = true } in
      let i₀ : IsSession s₀ = record { known = i.known; at_slot = i.at_slot; writer = i.writer } in
      elim (Bool-cases (s.active && block == 0)) [
        | inr e ↦ rw e (download_rest-Keeps block bytes s₀ d i₀)
        | inl e ↦
            rw e
              (download_rest-Keeps block bytes (session_abort s₀) d (session_abort-IsSession s₀ i₀))
      ]
