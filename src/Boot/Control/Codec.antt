-- ===== src/Boot/Control/Codec.antt =====
-- Control records as bytes, and which of two records a scan keeps.
use hpm53m1_g6618motor.Base.{
  ℕ, ◌+◌, ◌%◌, ◌≤◌, ◌<◌, ◌≡◌, refl, ◌⊎◌, inl, inr, true, false, Option, none, some, all_ff, arith,
}
use hpm53m1_g6618motor.Crc.{boot_crc32-lt}
use hpm53m1_g6618motor.Boot.Header.{slot_none}
use hpm53m1_g6618motor.Boot.Control.{
  ControlRecord, control_magic, control_crc, encode_control, decode_control, control_record_valid,
  seq_newer, absorb_control, prefer_newer, next_seq, stamp_control,
}

-- The fields fit their C types.
pub record InRange (r : ControlRecord) : Type 0 where
  pub magic : r.magic < 4294967296
  pub seq : r.seq < 65536
  pub active : r.active < 256
  pub pending : r.pending < 256
  pub attempts : r.attempts < 256
  pub confirmed : r.confirmed < 256
  pub reserved : r.reserved < 65536
  pub crc32 : r.crc32 < 4294967296

-- The slots that a caller may store.
pub record IsSlots (r : ControlRecord) : Type 0 where
  pub active : r.active ≤ 1
  pub pending : (r.pending ≡ slot_none) ⊎ (r.pending ≤ 1)

pub decode_control-encode_control :
    (r : ControlRecord) → InRange r → decode_control (encode_control r) ≡ r
unfolding decode_control encode_control
decode_control-encode_control r h = ground arith

next_seq-lt : (latest : Option ControlRecord) → next_seq latest < 65536
unfolding next_seq
next_seq-lt latest = ground arith

pub stamp_control-InRange :
    (latest : Option ControlRecord) (r : ControlRecord)
    → InRange r
    → InRange (stamp_control latest r)
unfolding stamp_control control_crc
stamp_control-InRange latest r h = record {
  magic = omega arith;
  seq = next_seq-lt latest;
  active = h.active;
  pending = h.pending;
  attempts = h.attempts;
  confirmed = h.confirmed;
  reserved = h.reserved;
  crc32 = boot_crc32-lt _;
}

pub stamp_control-valid :
    (latest : Option ControlRecord) (r : ControlRecord)
    → IsSlots r
    → control_record_valid (stamp_control latest r) ≡ true
unfolding stamp_control control_record_valid control_crc
stamp_control-valid latest r h = ground arith

pub seq_newer-next : (n : ℕ) → seq_newer ((n + 1) % 65536) n ≡ true
unfolding seq_newer
seq_newer-next n = ground arith

pub encode_control-not_erased :
    (r : ControlRecord) → r.magic ≡ control_magic → all_ff (encode_control r) ≡ false
unfolding encode_control
encode_control-not_erased r h = rw h

prefer_newer-stamp :
    (latest : Option ControlRecord) (r : ControlRecord)
    → prefer_newer (stamp_control latest r) latest ≡ some (stamp_control latest r)
unfolding prefer_newer stamp_control next_seq
prefer_newer-stamp none r = refl
prefer_newer-stamp (some l) r = rw (seq_newer-next l.seq)

-- A scan that meets the record stamped for its latest record takes it, and so does a scan that has
-- no record yet.
pub absorb_control-stamp :
    (latest seen : Option ControlRecord) (r : ControlRecord)
    → InRange r
    → IsSlots r
    → (seen ≡ none) ⊎ (seen ≡ latest)
    → let s = stamp_control latest r in absorb_control (encode_control s) seen ≡ some s
unfolding absorb_control
absorb_control-stamp latest seen r h k which =
    rw
      (
        decode_control-encode_control (stamp_control latest r) (stamp_control-InRange latest r h),
        stamp_control-valid latest r k,
      )
      (taken which)
  where
    taken :
        (seen ≡ none) ⊎ (seen ≡ latest)
        → prefer_newer (stamp_control latest r) seen ≡ some (stamp_control latest r)
    taken (inl e) = rw e (unfold prefer_newer in refl)
    taken (inr e) = rw e (prefer_newer-stamp latest r)
