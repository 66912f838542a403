-- ===== src/Cogging/Tests.antt =====
-- Tables saved and loaded on a flash in memory.
use hpm53m1_g6618motor.Base.{
  ◌≡◌, refl, true, false, some, List, [], ◌∷◌, ◌++◌, replicate, arith, IsBytes, IsBytes-append,
  IsBytes-replicate,
}
use hpm53m1_g6618motor.Crc.{param_crc32}
use hpm53m1_g6618motor.Flash.Ram.{ram, ram-laws, window, overlay}
use hpm53m1_g6618motor.Param.Init.{Geometry}
use hpm53m1_g6618motor.Param.Tests.{ram-ReadsParts}
use hpm53m1_g6618motor.Cogging.{
  Cogging, record_bytes, store_record, without_crc, cogging_sector, program_chunks, verified,
  write_record, cogging_save, cogging_load, set_tables,
}
use hpm53m1_g6618motor.Cogging.Switches.{
  Call, tables, master, output, calls, IsConsistent, calls-IsConsistent,
}
use hpm53m1_g6618motor.Cogging.Saved.{cogging_load-cogging_save}

abbrev geometry : Geometry
geometry = record { started = true; sector = 4096; base = 0x80000000; size = 0x100000 }

abbrev measured : Cogging
measured = record {
  tables = replicate 1568 5 ++ 1 ∷ 1 ∷ [];
  master_enabled = false;
  rotor_enabled = false;
  output_enabled = false;
  output_required = false;
}

saves : (cogging_save ram geometry true measured (λ a. 0)).0 ≡ true
unfolding cogging_save write_record verified program_chunks store_record record_bytes without_crc
    cogging_sector window overlay param_crc32
saves = refl

measured-IsBytes : IsBytes measured.tables
measured-IsBytes =
    IsBytes-append (replicate 1568 5) (1 ∷ 1 ∷ []) (IsBytes-replicate 1568 5 (omega arith))
      (omega arith)

placed : cogging_sector geometry ≡ some 0x800FD000
unfolding cogging_sector
placed = refl

cogging_load-cogging_save_example :
    cogging_load ram geometry (cogging_save ram geometry true measured (λ a. 0)).1 measured
    ≡ (true, set_tables measured.tables measured)
cogging_load-cogging_save_example =
    cogging_load-cogging_save ram ram-laws ram-ReadsParts geometry true measured measured (λ a. 0)
      0x800FD000 placed refl (omega arith) refl measured-IsBytes saves

-- The saved tables are set, the master switch brings both tables in, and one is switched off again.
abbrev session : List Call
session = tables measured.tables ∷ master true ∷ output false ∷ []

measured-IsConsistent : IsConsistent measured
measured-IsConsistent = record {
  rotor_on = λ h. absurd (ground arith);
  output_on = λ h. absurd (ground arith);
  master_on = λ h. absurd (ground arith);
  told = refl;
}

calls-IsConsistent_example : IsConsistent (calls session measured)
calls-IsConsistent_example = calls-IsConsistent session measured measured-IsConsistent
