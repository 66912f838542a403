-- ===== src/Boot/Log/Scan.antt =====
-- What every scan of a log keeps true of its result.
use hpm53m1_g6618motor.Base.{
  ℕ, zero, suc, ◌+◌, ◌≡◌, Option, some, List, inl, inr, Bool-cases, Option-cases,
}
use hpm53m1_g6618motor.Flash.{FlashOps}
use hpm53m1_g6618motor.Boot.Log.{log_scan, record_is_erased}

module _ {ℓ κ} {R : Type ℓ} (ops : FlashOps) (sector z : ℕ) (absorb : List ℕ → Option R → Option R)
    (P : Option R → Type κ) where
  -- A property that the body of the loop keeps, for bytes that were read, holds of the result.
  pub log_scan-inv :
      ((d : ops.Dev) (a : ℕ) (bytes : List ℕ) (latest : Option R)
        → ops.read d a z ≡ some bytes
        → P latest
        → P (absorb bytes latest))
      → (n : ℕ) (d : ops.Dev) (off : ℕ) (latest : Option R) → P latest
      → P (log_scan ops absorb n d sector z off latest)
  unfolding log_scan
  log_scan-inv keep zero d off latest h = h
  log_scan-inv keep (suc n) d off latest h =
      elim (Bool-cases (record_is_erased ops d (sector + off) z)) [
        | inl e ↦ rw e h
        | inr e ↦ rw e (elim (Option-cases (ops.read d (sector + off) z)) [
          | inl m ↦ rw m h
          | inr (bytes, m) ↦ rw m (
              log_scan-inv keep n d (off + z) (absorb bytes latest)
                (keep d (sector + off) bytes latest m h))
        ])
      ]
