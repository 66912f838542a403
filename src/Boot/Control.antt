-- ===== src/Boot/Control.antt =====
-- The boot control log (boot_meta.c, `control_record_valid`, `seq_newer`, `boot_control_load`,
-- `boot_control_save`, `boot_control_defaults`, `boot_confirm_running_slot`).
pub mod Codec
pub mod Save
pub mod Confirm
use hpm53m1_g6618motor.Base.{
  ℕ, ◌+◌, ◌-◌, ◌%◌, Bool, true, false, not, ◌&&◌, ◌||◌, Option, none, some, List, [], ◌∷◌, ltb, leb,
  ◌==◌, if◌then◌else◌, push16, push32, get16, get32, byte_at,
}
use hpm53m1_g6618motor.Crc.{boot_crc32}
use hpm53m1_g6618motor.Flash.{FlashOps}
use hpm53m1_g6618motor.Boot.Header.{control_addr, slot_none, slot_count}
use hpm53m1_g6618motor.Boot.Log.{rounds_of, log_append, log_scan}

-- `boot_control_record_t`, 16 bytes.
pub record ControlRecord : Type 0 where
  pub magic : ℕ
  pub seq : ℕ
  pub active : ℕ
  pub pending : ℕ
  pub attempts : ℕ
  pub confirmed : ℕ
  pub reserved : ℕ
  pub crc32 : ℕ

abbrev pub control_magic : ℕ
control_magic = 0x424D4554

abbrev pub control_size : ℕ
control_size = 16

-- The twelve bytes in front of the checksum, and then `tail`.
abbrev pub control_bytes : ControlRecord → List ℕ → List ℕ
control_bytes r tail =
    push32 r.magic
      (push16 r.seq (r.active ∷ r.pending ∷ r.attempts ∷ r.confirmed ∷ push16 r.reserved tail))

-- The checksum over the record without its `crc32`.
unfoldable pub control_crc : ControlRecord → ℕ
control_crc r = boot_crc32 (control_bytes r [])

-- The record in memory, as bytes and back.
unfoldable pub encode_control : ControlRecord → List ℕ
encode_control r = control_bytes r (push32 r.crc32 [])

unfoldable pub decode_control : List ℕ → ControlRecord
decode_control bs = record {
  magic = get32 bs 0;
  seq = get16 bs 4;
  active = byte_at bs 6;
  pending = byte_at bs 7;
  attempts = byte_at bs 8;
  confirmed = byte_at bs 9;
  reserved = get16 bs 10;
  crc32 = get32 bs 12;
}

unfoldable pub control_record_valid : ControlRecord → Bool
control_record_valid r =
    if not (r.magic == control_magic) || ltb 1 r.active
    then false
    else if not (r.pending == slot_none) && ltb 1 r.pending
    then false
    else control_crc r == r.crc32

-- `(int16_t)(a - b) > 0` on `uint16_t`.
unfoldable pub seq_newer : ℕ → ℕ → Bool
seq_newer a b = let diff = (a + 65536 - b % 65536) % 65536 in ltb 0 diff && ltb diff 32768

-- `if (!have_latest || seq_newer(rec.seq, latest.seq))` take `rec`.
unfoldable pub prefer_newer : ControlRecord → Option ControlRecord → Option ControlRecord
prefer_newer rec none = some rec
prefer_newer rec (some latest) = if seq_newer rec.seq latest.seq then some rec else some latest

-- The body of the loop of `boot_control_load`.
unfoldable pub absorb_control : List ℕ → Option ControlRecord → Option ControlRecord
absorb_control bytes latest =
    let rec = decode_control bytes in
    if not (control_record_valid rec) then latest else prefer_newer rec latest

unfoldable pub control_defaults : ControlRecord
control_defaults = record {
  magic = control_magic;
  seq = 0;
  active = 0;
  pending = slot_none;
  attempts = 0;
  confirmed = 0;
  reserved = 0;
  crc32 = 0;
}

-- The sequence number after that of the latest record, in `uint16_t`.
unfoldable pub next_seq : Option ControlRecord → ℕ
next_seq none = 0
next_seq (some latest) = (latest.seq + 1) % 65536

-- What `boot_control_save` writes for `rec`, given the latest record.
unfoldable pub stamp_control : Option ControlRecord → ControlRecord → ControlRecord
stamp_control latest rec =
    let copy = record rec { seq = next_seq latest; magic = control_magic } in
    record copy { crc32 = control_crc copy }

module _ (ops : FlashOps) where
  open ops use {Dev}

  -- `none` is the result -1.
  unfoldable pub control_load : Dev → Option ControlRecord
  control_load d =
      log_scan ops absorb_control (rounds_of control_size) d control_addr control_size 0 none

  unfoldable pub control_save : Dev → ControlRecord → Bool × Dev
  control_save d rec =
      log_append ops d control_addr (encode_control (stamp_control (control_load d) rec))

  unfoldable pub confirm_running_slot : Dev → ℕ → Bool × Dev
  confirm_running_slot d slot_id =
      if leb slot_count slot_id then (false, d) else elim (control_load d) [
        | none ↦ control_save d (record control_defaults { active = slot_id; confirmed = 1 })
        | some rec ↦
            if rec.active == slot_id && rec.pending == slot_none && not (rec.confirmed == 0)
            then (true, d)
            else control_save d
                (record rec { active = slot_id; pending = slot_none; attempts = 0; confirmed = 1 })
      ]
