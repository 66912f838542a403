-- ===== src/Boot/Log/Entries.antt =====
-- The log of Boot/Log.antt as the list of the records that a scan meets, and what an append does
-- to that list.
use hpm53m1_g6618motor.Base.{
  ℕ, zero, suc, ◌+◌, ◌*◌, ◌≤◌, ◌≡◌, refl, ◌⊎◌, inl, inr, Bool, true, false, Option, none, some,
  List, [], ◌∷◌, ◌++◌, replicate, arith, if◌then◌else◌, Bool-cases, all_ff, Option-cases,
}
use hpm53m1_g6618motor.Flash.{FlashOps}
use hpm53m1_g6618motor.Boot.Log.{record_is_erased, next_erased, log_scan}

-- The body of the loop of a `_load` function over the records in order.
abbrev pub absorb_all {ℓ} :
    {R : Type ℓ} → (List ℕ → Option R → Option R) → List (List ℕ) → Option R → Option R
absorb_all absorb [] latest = latest
absorb_all absorb (bytes ∷ rest) latest = absorb_all absorb rest (absorb bytes latest)

pub absorb_all-append {ℓ} :
    {R : Type ℓ} (absorb : List ℕ → Option R → Option R) (rs ts : List (List ℕ)) (latest : Option R)
    → absorb_all absorb (rs ++ ts) latest ≡ absorb_all absorb ts (absorb_all absorb rs latest)
absorb_all-append absorb [] ts latest = refl
absorb_all-append absorb (r ∷ rs) ts latest = absorb_all-append absorb rs ts (absorb r latest)

pub all_ff-replicate : (n : ℕ) → all_ff (replicate n 255) ≡ true
all_ff-replicate zero = refl
all_ff-replicate (suc n) = all_ff-replicate n

module _ (ops : FlashOps) (sector z : ℕ) where
  open ops use {Dev, read}

  abbrev pub erased_at : Dev → ℕ → Bool
  erased_at d off = record_is_erased ops d (sector + off) z

  -- The records up to the first erased or unreadable one.
  unfoldable pub entries : ℕ → Dev → ℕ → List (List ℕ)
  entries zero d off = []
  entries (suc n) d off =
      if erased_at d off
      then []
      else elim (read d (sector + off) z) [ none ↦ [] | some bytes ↦ bytes ∷ entries n d (off + z) ]

  unfoldable pub AllErased : ℕ → Dev → ℕ → Type 0
  AllErased zero d off = Unit
  AllErased (suc n) d off = (erased_at d off ≡ true) × AllErased n d (off + z)

  -- The records that are not erased are readable and stand together at the start of the sector.
  unfoldable pub IsCompact : ℕ → Dev → ℕ → Type 0
  IsCompact zero d off = Unit
  IsCompact (suc n) d off =
      ((erased_at d off ≡ true) × AllErased n d (off + z))
      ⊎ ((bytes : List ℕ) × (erased_at d off ≡ false)
          × (read d (sector + off) z ≡ some bytes)
          × IsCompact n d (off + z))

  pub entries-AllErased : (n : ℕ) (d : Dev) (off : ℕ) → AllErased n d off → entries n d off ≡ []
  unfolding entries AllErased
  entries-AllErased zero d off h = refl
  entries-AllErased (suc n) d off h = rw h.0

  -- What a `_load` function computes depends on the list of the records only.
  pub log_scan-entries {ℓ} :
      {R : Type ℓ} (absorb : List ℕ → Option R → Option R) (n : ℕ) (d : Dev) (off : ℕ)
      (latest : Option R)
      → log_scan ops absorb n d sector z off latest ≡ absorb_all absorb (entries n d off) latest
  unfolding log_scan entries
  log_scan-entries absorb zero d off latest = refl
  log_scan-entries absorb (suc n) d off latest = elim (Bool-cases (erased_at d off)) [
    | inl e ↦ rw e
    | inr e ↦ rw e (elim (Option-cases (read d (sector + off) z)) [
      | inl m ↦ rw m
      | inr (bytes, m) ↦ rw m (log_scan-entries absorb n d (off + z) (absorb bytes latest))
    ])
  ]

  pub next_erased-le :
      (n : ℕ) (d : Dev) (off o : ℕ) → next_erased ops n d sector z off ≡ some o → off ≤ o
  unfolding next_erased
  next_erased-le zero d off o h = ground arith
  next_erased-le (suc n) d off o h = ground (arith, next_erased-le n d (off + z) o)

  pub next_erased-end :
      (n : ℕ) (d : Dev) (off o : ℕ)
      → next_erased ops n d sector z off ≡ some o
      → o + z ≤ off + n * z
  unfolding next_erased
  next_erased-end zero d off o h = ground arith
  next_erased-end (suc n) d off o h = ground (arith, next_erased-end n d (off + z) o)
