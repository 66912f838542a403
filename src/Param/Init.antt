-- ===== src/Param/Init.antt =====
-- The set-up of the parameter store (app_param.c, `app_param_init`).
use hpm53m1_g6618motor.Base.{
  ℕ, ◌+◌, ◌-◌, ◌*◌, ◌/◌, ◌%◌, ◌≤◌, ◌<◌, ◌≡◌, refl, ◌∙◌, Bool, true, false, not, ◌||◌, ltb, ◌==◌,
  if◌then◌else◌, arith, Bool-cases, inl, inr,
}
use native.Mathlib.Nat.{add-mul-mod_self_right, zero-mod}
use hpm53m1_g6618motor.Flash.{FlashOps}
use hpm53m1_g6618motor.Param.{Store, slot_bytes}
use hpm53m1_g6618motor.Param.Place.{IsPlaced}

-- `APP_PARAM_SLOT_MAX`
abbrev pub slot_max : ℕ
slot_max = 16

-- What the flash driver answers: whether it is there and starts, and its sizes.
pub record Geometry : Type 0 where
  pub started : Bool
  pub sector : ℕ
  pub base : ℕ
  pub size : ℕ

-- `app_param_init`
unfoldable pub init : Geometry → Store → Bool × Store
init g s =
    let s₀ = record s { stage = 0; slot = 4294967295; error = 0 } in
    if s.ready
    then (true, s)
    else if not g.started
    then (false, s₀)
    else if g.sector == 0
        || not (g.sector % slot_bytes == 0)
        || ltb slot_max (g.sector / slot_bytes)
    then (false, s₀)
    else (
      true,
      record s₀ {
        sector_addr = (g.base + g.size + 4294967296 - 2 * g.sector % 4294967296) % 4294967296;
        slot_count = g.sector / slot_bytes;
        ready = true;
      },
    )

-- Where the flash is a whole number of sectors, of which it has two at least, in the address space, a
-- set-up that succeeds from scratch places the store in the last sector but one, in at most sixteen
-- slots that fill the sector.
pub init-IsPlaced :
    (ops : FlashOps) (g : Geometry) (s : Store) (b n : ℕ)
    → g.sector ≡ ops.sector_size
    → g.base ≡ b * g.sector
    → g.size ≡ (n + 2) * g.sector
    → g.base + g.size < 4294967296
    → s.ready ≡ false
    → (init g s).0 ≡ true
    → let s' = (init g s).1 in
      IsPlaced ops s'
      × (s'.ready ≡ true)
      × (s'.slot_count * slot_bytes ≡ g.sector)
      × (s'.slot_count ≤ slot_max)
      × (s'.sector_addr + 2 * g.sector ≡ g.base + g.size)
unfolding init
init-IsPlaced ops g s b n same base size small fresh ok =
    let bad =
      g.sector == 0 || not (g.sector % slot_bytes == 0) || ltb slot_max (g.sector / slot_bytes) in
    let addr = (g.base + g.size + 4294967296 - 2 * g.sector % 4294967296) % 4294967296 in
    let at : addr ≡ 0 + (b + n) * g.sector = omega (arith, base, size, small) in
    let whole : bad ≡ false → g.sector / slot_bytes * slot_bytes ≡ g.sector =
      λ e. ground (arith, e) in
    elim (Bool-cases (not g.started)) [
      | inl d ↦ absurd (cc (rw (fresh, d) at ok))
      | inr d ↦ elim (Bool-cases bad) [
        | inl e ↦ absurd (cc (rw (fresh, d, e) at ok))
        | inr e ↦
            rw (fresh, d, e)
              (
                record {
                  aligned =
                      rw⁻¹ same
                        (rw at (add-mul-mod_self_right 0 (b + n) g.sector ∙ zero-mod g.sector));
                  fits = rw⁻¹ same (omega (arith, whole e));
                },
                refl,
                whole e,
                ground (arith, e),
                omega (arith, at, base, size),
              )
      ]
    ]
