-- ===== src/Cogging.antt =====
-- The tables of the cogging compensation and their own flash sector (App/Control/Src/app_cogging.c,
-- the tables and their switches, and app_cogging_store.c). Tables are the bytes of their fields.
pub mod Switches
pub mod Record
pub mod Chunks
pub mod Saved
mod Tests
use hpm53m1_g6618motor.Base.{
  ℕ, zero, suc, ◌+◌, ◌-◌, ◌*◌, ◌%◌, Bool, true, false, not, ◌&&◌, ◌||◌, Option, none, some, List,
  [], ◌∷◌, ◌++◌, ltb, leb, ◌==◌, if◌then◌else◌, length, take, drop, replicate, byte_at, push16,
  push32, get16, get32,
}
use hpm53m1_g6618motor.Crc.{param_crc32}
use hpm53m1_g6618motor.Flash.{FlashOps}
use hpm53m1_g6618motor.Param.Init.{Geometry}

abbrev pub store_magic : ℕ
store_magic = 0x47474F43

abbrev pub rotor_points : ℕ
rotor_points = 512

abbrev pub output_points : ℕ
output_points = 256

-- `APP_COGGING_ROTOR_SCALE_NM` and `APP_COGGING_OUTPUT_SCALE_NM` as floats.
abbrev pub rotor_scale : ℕ
rotor_scale = 0x3A03126F

abbrev pub output_scale : ℕ
output_scale = 0x3A83126F

-- The fields of `app_cogging_tables_t` up to its padding, where its two flags stand, and the size of
-- `app_cogging_store_record_t`.
abbrev pub tables_size : ℕ
tables_size = 1570

abbrev pub rotor_valid_at : ℕ
rotor_valid_at = 1568

abbrev pub output_valid_at : ℕ
output_valid_at = 1569

abbrev pub record_size : ℕ
record_size = 1596

abbrev pub rotor_valid : List ℕ → Bool
rotor_valid tables = not (byte_at tables rotor_valid_at == 0)

abbrev pub output_valid : List ℕ → Bool
output_valid tables = not (byte_at tables output_valid_at == 0)

-- The tables, the switches, and what was last passed to `app_motion_set_cogging_output_required`.
pub record Cogging : Type 0 where
  pub tables : List ℕ
  pub master_enabled : Bool
  pub rotor_enabled : Bool
  pub output_enabled : Bool
  pub output_required : Bool

-- `cogging_update_output_tracking`
unfoldable pub update_output_tracking : Cogging → Cogging
update_output_tracking c = record c {
  output_required = c.master_enabled && c.output_enabled && output_valid c.tables;
}

-- `app_cogging_set_tables`
unfoldable pub set_tables : List ℕ → Cogging → Cogging
set_tables tables c =
    let c' = record c { tables = tables } in
    update_output_tracking (
      if not (rotor_valid tables) && not (output_valid tables)
      then record c' { master_enabled = false; rotor_enabled = false; output_enabled = false }
      else record c' {
        rotor_enabled = c.rotor_enabled && rotor_valid tables;
        output_enabled = c.output_enabled && output_valid tables;
      })

-- `app_cogging_clear_tables`
unfoldable pub clear_tables : Cogging → Cogging
clear_tables c = update_output_tracking (record c {
  tables = replicate tables_size 0;
  master_enabled = false;
  rotor_enabled = false;
  output_enabled = false;
})

-- `cogging_sector`
unfoldable pub cogging_sector : Geometry → Option ℕ
cogging_sector g =
    if not g.started || g.base == 0 || ltb g.size (3 * g.sector % 4294967296) || g.sector == 0
    then none
    else some ((g.base + g.size + 4294967296 - 3 * g.sector % 4294967296) % 4294967296)

-- The record with this checksum.
unfoldable pub record_bytes : List ℕ → ℕ → List ℕ
record_bytes tables crc = push32 store_magic (
    push16 1 (
      push16 rotor_points (
        push16 output_points (
          push16 0
            (push32 rotor_scale (push32 output_scale (push32 crc (tables ++ 0 ∷ 0 ∷ []))))))))

-- The record that `app_cogging_store_save` writes.
unfoldable pub store_record : List ℕ → List ℕ
store_record tables = record_bytes tables (param_crc32 (record_bytes tables 0))

-- The bytes of a record with its checksum set to 0.
unfoldable pub without_crc : List ℕ → List ℕ
without_crc bs = take 20 bs ++ 0 ∷ 0 ∷ 0 ∷ 0 ∷ drop 24 bs

-- The checks of the fields in `app_cogging_store_load`.
unfoldable pub fields_match : List ℕ → Bool
fields_match bs =
    get32 bs 0 == store_magic
    && get16 bs 4 == 1
    && get16 bs 6 == rotor_points
    && get16 bs 8 == output_points
    && get32 bs 12 == rotor_scale
    && get32 bs 16 == output_scale

module _ (ops : FlashOps) where
  open ops use {Dev}

  -- The tables that `app_cogging_store_load` finds.
  unfoldable pub load_tables : Geometry → Dev → Option (List ℕ)
  load_tables g d = elim (cogging_sector g) [
    | none ↦ none
    | some address ↦ elim (ops.read d address record_size) [
      | none ↦ none
      | some bs ↦
          if fields_match bs && param_crc32 (without_crc bs) == get32 bs 20
          then some (take tables_size (drop 24 bs))
          else none
    ]
  ]

  -- `app_cogging_store_load`
  unfoldable pub cogging_load : Geometry → Dev → Cogging → Bool × Cogging
  cogging_load g d c = elim (load_tables g d) [
    | none ↦ (false, c)
    | some tables ↦ (true, set_tables tables c)
  ]

  -- The loop that programs the record in chunks, on fuel.
  unfoldable pub program_chunks : ℕ → ℕ → List ℕ → Dev → Bool × Dev
  program_chunks zero address src d = (length src == 0, d)
  program_chunks (suc n) address src d =
      let (ok, d₁) = ops.program d address (take 256 src) in
      let rest = program_chunks n (address + 256) (drop 256 src) d₁ in
      if length src == 0 then (true, d) else if not ok then (false, d₁) else rest

  -- The check of the record that was read back.
  unfoldable pub verified : Option (List ℕ) → Bool
  verified none = false
  verified (some bs) = get32 bs 0 == store_magic && param_crc32 (without_crc bs) == get32 bs 20

  -- The part of `app_cogging_store_save` on the flash.
  unfoldable pub write_record : ℕ → List ℕ → Dev → Bool × Dev
  write_record address tables d =
      let (erased, d₁) = ops.erase_sector d address in
      let (programmed, d₂) = program_chunks 7 address (store_record tables) d₁ in
      if not erased
      then (false, d₁)
      else if not programmed
      then (false, d₂)
      else (verified (ops.read d₂ address record_size), d₂)

  -- `app_cogging_store_save`, where `foc_off` says that the FOC is off and no stop is pending.
  unfoldable pub cogging_save : Geometry → Bool → Cogging → Dev → Bool × Dev
  cogging_save g foc_off c d =
      if (not (rotor_valid c.tables) && not (output_valid c.tables)) || not foc_off
      then (false, d)
      else elim (cogging_sector g) [
        | none ↦ (false, d)
        | some address ↦ write_record address c.tables d
      ]

  -- `app_cogging_store_clear`
  unfoldable pub cogging_clear : Geometry → Bool → Cogging → Dev → Bool × (Cogging × Dev)
  cogging_clear g foc_off c d = if not foc_off then (false, (c, d)) else elim (cogging_sector g) [
    | none ↦ (false, (c, d))
    | some address ↦
        let (erased, d₁) = ops.erase_sector d address in
        if erased then (true, (clear_tables c, d₁)) else (false, (c, d₁))
  ]
