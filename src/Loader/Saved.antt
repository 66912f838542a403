-- ===== src/Loader/Saved.antt =====
-- What the bootloader reads of a control record that it saved.
use hpm53m1_g6618motor.Base.{◌≡◌, refl, ap, ◌∙◌, true, Option, some}
use hpm53m1_g6618motor.Flash.{FlashOps, FlashLaws}
use hpm53m1_g6618motor.Boot.Control.{ControlRecord, control_load, control_save, stamp_control}
use hpm53m1_g6618motor.Boot.Control.Save.{IsControlLog, control_load-control_save}
use hpm53m1_g6618motor.Loader.{control_load_or_default}
use hpm53m1_g6618motor.Loader.Decide.{IsUsable}

pub loaded :
    (ops : FlashOps) (d : ops.Dev) (r : ControlRecord)
    → control_load ops d ≡ some r
    → control_load_or_default ops d ≡ r
unfolding control_load_or_default
loaded ops d r e = rw (e, control_load_or_default) refl

stamp_control-same :
    (latest : Option ControlRecord) (r : ControlRecord)
    → let s = stamp_control latest r in
      (s.active ≡ r.active) × (s.pending ≡ r.pending) × (s.attempts ≡ r.attempts)
unfolding stamp_control
stamp_control-same latest r = (refl, refl, refl)

-- A start finds the slots and the count of attempts of this record.
abbrev pub Reads : (ops : FlashOps) → ops.Dev → ControlRecord → Type 0
Reads ops d r =
    let ctl = control_load_or_default ops d in
    (ctl.active ≡ r.active) × (ctl.pending ≡ r.pending) × (ctl.attempts ≡ r.attempts)

pub control_save-Reads :
    (ops : FlashOps) (laws : FlashLaws ops)
    → ops.sector_size ≡ 4096
    → (d : ops.Dev) (r : ControlRecord) → IsUsable r
    → IsControlLog ops d
    → (control_save ops d r).0 ≡ true
    → let d' = (control_save ops d r).1 in IsControlLog ops d' × Reads ops d' r
control_save-Reads ops laws size d r (range, slots) c ok =
    let d' = (control_save ops d r).1 in
    let (read, log) = control_load-control_save ops laws size d r range slots c ok in
    let s = stamp_control (control_load ops d) r in
    let e = loaded ops d' s read in
    let (a, p, t) = stamp_control-same (control_load ops d) r in
    (log, (ap (λ c. c.active) e ∙ a, ap (λ c. c.pending) e ∙ p, ap (λ c. c.attempts) e ∙ t))
