-- ===== src/Loader/Interrupt.antt =====
-- An upgrade over USB that ends before its manifest: from the choice of the slot in `main`
-- (bootloader/src/main.c) over the blocks of the session (bootloader/src/dfu.c) to the next start.
use Prim.Native.Nat.{bit_xor}
use hpm53m1_g6618motor.Base.{
  ℕ, ◌≤◌, ◌<◌, ◌≡◌, ◌≢◌, refl, ◌∙◌, ap, true, false, none, some, List, [], ◌∷◌, arith, inl, inr,
}
use hpm53m1_g6618motor.Flash.{FlashOps, FlashLaws}
use hpm53m1_g6618motor.Boot.Header.{slot_count, slot_none}
use hpm53m1_g6618motor.Boot.Control.{control_load, control_defaults}
use hpm53m1_g6618motor.Loader.{
  slot_valid, control_load_or_default, decide_active, decide, dfu_target,
}
use hpm53m1_g6618motor.Loader.Keep.{ViewLaws}
use hpm53m1_g6618motor.Loader.Decide.{other_slot, control_load_or_default-IsUsable}
use hpm53m1_g6618motor.Loader.Dfu.{Session, download, run_start}
use hpm53m1_g6618motor.Loader.Session.{IsSession}
use hpm53m1_g6618motor.Loader.Upgrade.{Protects, download-Protects}

pub bit_xor-other : (a : ℕ) → a ≤ 1 → (bit_xor a 1 < slot_count) × (a ≢ bit_xor a 1)
bit_xor-other a h = elim (other_slot a h) [
  | inl (e, x) ↦ (omega (arith, x), λ z. absurd (omega (arith, e, x, z)))
  | inr (e, x) ↦ (omega (arith, x), λ z. absurd (omega (arith, e, x, z)))
]

pub run_start-IsSession :
    (slot now : ℕ) (s : Session) → slot < slot_count → IsSession (run_start slot now s)
unfolding run_start
run_start-IsSession slot now s h = record {
  known = h;
  at_slot = λ e. ground arith;
  writer = λ e. ground arith;
}

module _ (ops : FlashOps) (view : ops.Dev → ℕ → ℕ → List ℕ) where
  -- The callbacks of a list of blocks, one after the other.
  unfoldable pub downloads : List (ℕ × List ℕ) → Session → ops.Dev → Session × ops.Dev
  downloads [] s d = (s, d)
  downloads ((block, bytes) ∷ rest) s d =
      let (_, (s', d')) = download ops view block bytes s d in downloads rest s' d'

module _ (ops : FlashOps) (view : ops.Dev → ℕ → ℕ → List ℕ) (keeps : ViewLaws ops view)
    (size : ops.sector_size ≡ 4096) where
  downloads-Protects :
      (blocks : List (ℕ × List ℕ)) (s : Session) (d : ops.Dev)
      → IsSession s
      → Protects ops view s.slot d (downloads ops view blocks s d).1
  unfolding downloads
  downloads-Protects [] s d i = (λ o h. refl, refl, λ c. c)
  downloads-Protects ((block, bytes) ∷ rest) s d i =
      let (_, (s', d')) = download ops view block bytes s d in
      let (i', e, (valid, read, log)) = download-Protects ops view keeps size block bytes s d i in
      let (valid', read', log') = downloads-Protects rest s' d' i' in
      (λ o h. valid' o (λ z. h (z ∙ e)) ∙ valid o h, read' ∙ read, λ c. log' (log c))

module _ (ops : FlashOps) (view : ops.Dev → ℕ → ℕ → List ℕ) where
  pub decide-active :
      (d : ops.Dev)
      → let ctl = control_load_or_default ops d in
        ctl.pending ≡ slot_none
        → slot_valid ops view d ctl.active ≡ true
        → decide ops view d false ≡ (some ctl.active, d)
  unfolding decide decide_active
  decide-active d e v = ground arith

module _ (ops : FlashOps) (view : ops.Dev → ℕ → ℕ → List ℕ) (laws : FlashLaws ops)
    (keeps : ViewLaws ops view) (size : ops.sector_size ≡ 4096) where
  dfu_target-other :
      (d : ops.Dev)
      → (dfu_target ops view d).1 ≡ true
      → let ctl = control_load_or_default ops d in
        (slot_valid ops view d ctl.active ≡ true)
        × ((dfu_target ops view d).0 ≡ bit_xor ctl.active 1)
  unfolding dfu_target
  dfu_target-other d h = (ground arith, ground arith)

  control_load_or_default-same :
      (d d' : ops.Dev)
      → control_load ops d' ≡ control_load ops d
      → control_load_or_default ops d' ≡ control_load_or_default ops d
  unfolding control_load_or_default
  control_load_or_default-same d d' e =
      ap (λ o. elim o [ none ↦ control_defaults | some ctl ↦ ctl ]) e

  -- Where the bootloader enters DFU with a valid active slot and no slot pending, whatever blocks the
  -- host then sends, in whatever order and up to whatever point, the next start without a request for
  -- DFU chooses the same active slot.
  pub interrupted_upgrade_starts_active :
      (blocks : List (ℕ × List ℕ)) (now : ℕ) (s : Session) (d : ops.Dev)
      → (dfu_target ops view d).1 ≡ true
      → (control_load_or_default ops d).pending ≡ slot_none
      → let (slot, _) = dfu_target ops view d in
        let (_, d') = downloads ops view blocks (run_start slot now s) d in
        (decide ops view d' false).0 ≡ some (control_load_or_default ops d).active
  unfolding run_start
  interrupted_upgrade_starts_active blocks now s d timed no_pending =
      let ctl = control_load_or_default ops d in
      let (slot, _) = dfu_target ops view d in
      let (range, slots) = control_load_or_default-IsUsable ops laws d in
      let (known, other) = bit_xor-other ctl.active (omega arith) in
      let (valid, target) = dfu_target-other d timed in
      let (same, read, log) =
        downloads-Protects ops view keeps size blocks (run_start slot now s) d
          (run_start-IsSession slot now s (rw target known)) in
      let d' = (downloads ops view blocks (run_start slot now s) d).1 in
      let e = control_load_or_default-same d d' read in
      let v = same ctl.active (λ z. other (z ∙ target)) ∙ valid in
      ap (λ m. m.0)
        (decide-active ops view d' (ap (λ c. c.pending) e ∙ no_pending)
          (ap (λ c. slot_valid ops view d' c.active) e ∙ v))
      ∙ ap (λ c. some c.active) e
