-- ===== src/Cogging/Switches.antt =====
-- The switches of the cogging compensation (App/Control/Src/app_cogging.c), without the gain.
use hpm53m1_g6618motor.Base.{
  ℕ, ◌≡◌, Bool, true, false, not, ◌&&◌, ◌||◌, List, [], ◌∷◌, if◌then◌else◌, replicate, arith,
}
use hpm53m1_g6618motor.Cogging.{
  Cogging, tables_size, rotor_valid, output_valid, update_output_tracking, set_tables, clear_tables,
}

-- `app_cogging_init`, which leaves what the motion module was told.
unfoldable pub cogging_init : Cogging → Cogging
cogging_init c = record c {
  tables = replicate tables_size 0;
  master_enabled = false;
  rotor_enabled = false;
  output_enabled = false;
}

-- `app_cogging_apply_defaults` with the three switches of the software parameters.
unfoldable pub apply_defaults : Bool → Bool → Bool → Cogging → Cogging
apply_defaults enable rotor_enable output_enable c =
    let rotor = rotor_enable && rotor_valid c.tables in
    let output = output_enable && output_valid c.tables in
    update_output_tracking (record c {
      rotor_enabled = rotor;
      output_enabled = output;
      master_enabled = enable && (rotor || output);
    })

-- `app_cogging_set_master`
unfoldable pub set_master : Bool → Cogging → Bool × Cogging
set_master enable c =
    let first = enable && not c.rotor_enabled && not c.output_enabled in
    if enable && not (rotor_valid c.tables) && not (output_valid c.tables) then (false, c) else (
      true,
      update_output_tracking (record c {
        rotor_enabled = if first then rotor_valid c.tables else c.rotor_enabled;
        output_enabled = if first then output_valid c.tables else c.output_enabled;
        master_enabled = enable;
      }),
    )

-- `app_cogging_set_rotor_enable`
unfoldable pub set_rotor_enable : Bool → Cogging → Bool × Cogging
set_rotor_enable enable c =
    if enable && not (rotor_valid c.tables)
    then (false, c)
    else (true, record c { rotor_enabled = enable })

-- `app_cogging_set_output_enable`
unfoldable pub set_output_enable : Bool → Cogging → Bool × Cogging
set_output_enable enable c =
    if enable && not (output_valid c.tables)
    then (false, c)
    else (true, update_output_tracking (record c { output_enabled = enable }))

-- The calls, with their arguments.
pub data Call : Type 0 where
  defaults : Bool → Bool → Bool → Call
  master rotor output : Bool → Call
  tables : List ℕ → Call
  clear : Call

abbrev pub call : Call → Cogging → Cogging
call (defaults e r o) c = apply_defaults e r o c
call (master e) c = (set_master e c).1
call (rotor e) c = (set_rotor_enable e c).1
call (output e) c = (set_output_enable e c).1
call (tables t) c = set_tables t c
call clear c = clear_tables c

abbrev pub calls : List Call → Cogging → Cogging
calls [] c = c
calls (k ∷ rest) c = calls rest (call k c)

-- No switch of a table is on without the table, the master switch is off without any table, and the
-- motion module was told whether the output angle is needed.
pub record IsConsistent (c : Cogging) : Type 0 where
  pub rotor_on : c.rotor_enabled ≡ true → rotor_valid c.tables ≡ true
  pub output_on : c.output_enabled ≡ true → output_valid c.tables ≡ true
  pub master_on : c.master_enabled ≡ true → (rotor_valid c.tables || output_valid c.tables) ≡ true
  pub told : c.output_required ≡ (c.master_enabled && c.output_enabled && output_valid c.tables)

-- The switches as numbers of the state alone: a rule over Booleans.
call-IsConsistent : (k : Call) (c : Cogging) → IsConsistent c → IsConsistent (call k c)
unfolding apply_defaults set_master set_rotor_enable set_output_enable set_tables clear_tables
    update_output_tracking
call-IsConsistent (defaults e r o) c i = ground arith
call-IsConsistent (master e) c i = ground arith
call-IsConsistent (rotor e) c i = ground arith
call-IsConsistent (output e) c i = ground arith
call-IsConsistent (tables t) c i = ground arith
call-IsConsistent clear c i = ground arith

-- From consistent switches, after any sequence of calls no table's switch is on without its table, the
-- master switch is off without any table, and the motion module was last told whether the angle of the
-- output shaft is needed.
pub calls-IsConsistent : (ks : List Call) (c : Cogging) → IsConsistent c → IsConsistent (calls ks c)
calls-IsConsistent [] c i = i
calls-IsConsistent (k ∷ rest) c i = calls-IsConsistent rest (call k c) (call-IsConsistent k c i)
