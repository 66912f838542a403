-- ===== src/Boot/Log/Change.antt =====
-- How the records of a log change when one slot of it is written, or when its sector is erased.
use hpm53m1_g6618motor.Base.{
  ℕ, zero, suc, ◌+◌, ◌*◌, ◌%◌, ◌≤◌, ◌≡◌, sym, ◌⊎◌, inl, inr, true, none, some, List, [], ◌∷◌, ◌++◌,
  arith, if◌then◌else◌, Option-cases, subst, ap, Bool-cases,
}
use hpm53m1_g6618motor.Flash.{FlashOps, FlashLaws, Apart}
use hpm53m1_g6618motor.Boot.Log.{record_is_erased, next_erased}
use hpm53m1_g6618motor.Boot.Log.Entries.{
  entries, erased_at, AllErased, IsCompact, entries-AllErased, next_erased-le, all_ff-replicate,
}

module _ (ops : FlashOps) (sector z : ℕ) where
  pub AllErased-IsCompact :
      (n : ℕ) (e : ops.Dev) (off : ℕ)
      → AllErased ops sector z n e off
      → IsCompact ops sector z n e off
  unfolding AllErased IsCompact
  AllErased-IsCompact zero e off h = tt
  AllErased-IsCompact (suc n) e off h = inl h

-- Two states of the device that agree outside the slot at offset `o`.
module _ (ops : FlashOps) (sector z o : ℕ) (d d' : ops.Dev)
    (apart : (a n : ℕ) → Apart a n (sector + o) z → ops.read d' a n ≡ ops.read d a n) where
  erased-apart :
      (off : ℕ)
      → (off + z ≤ o) ⊎ (o + z ≤ off)
      → erased_at ops sector z d' off ≡ erased_at ops sector z d off
  unfolding record_is_erased
  erased-apart off h = rw (apart (sector + off) z (omega arith))

  AllErased-apart :
      (n off : ℕ) → o + z ≤ off → AllErased ops sector z n d off → AllErased ops sector z n d' off
  unfolding AllErased
  AllErased-apart zero off h e = e
  AllErased-apart (suc n) off h e =
      (rw (erased-apart off (inr h)) e.0, AllErased-apart n (off + z) (omega arith) e.1)

  -- What a scan meets at the slot that was written.
  abbrev pub slot_entry : List (List ℕ)
  slot_entry =
      if erased_at ops sector z d' o
      then []
      else elim (ops.read d' (sector + o) z) [ none ↦ [] | some bytes ↦ bytes ∷ [] ]

  first_slot :
      (n : ℕ) → AllErased ops sector z n d (o + z) → entries ops sector z (suc n) d' o ≡ slot_entry
  unfolding entries
  first_slot n rest = elim (Bool-cases (erased_at ops sector z d' o)) [
    | inl e ↦ rw e
    | inr e ↦ rw e (elim (Option-cases (ops.read d' (sector + o) z)) [
      | inl m ↦ rw m
      | inr (bytes, m) ↦ rw m (
          ap (λ (t : List (List ℕ)). bytes ∷ t)
            (entries-AllErased ops sector z n d' (o + z)
              (AllErased-apart n (o + z) (omega arith) rest)))
    ])
  ]

  -- Whatever a write at the first erased slot leaves there, the earlier records stay, in order.
  pub entries-write :
      (n off : ℕ)
      → next_erased ops n d sector z off ≡ some o
      → IsCompact ops sector z n d off
      → entries ops sector z n d' off ≡ entries ops sector z n d off ++ slot_entry
  unfolding next_erased entries AllErased IsCompact
  entries-write zero off h c = ground arith
  entries-write (suc n) off h (inl (e, rest)) =
      let same : off ≡ o = ground arith in
      let e' = subst (λ k. erased_at ops sector z d k ≡ true) same e in
      subst
        (λ k. entries ops sector z (suc n) d' k ≡ entries ops sector z (suc n) d k ++ slot_entry)
        (sym same)
        (rw e' (first_slot n (subst (λ k. AllErased ops sector z n d (k + z)) same rest)))
  entries-write (suc n) off h (inr (bytes, e, r, c)) =
      let later : next_erased ops n d sector z (off + z) ≡ some o = ground arith in
      let le = next_erased-le ops sector z n d (off + z) o later in
      rw (erased-apart off (inl le), e, apart (sector + off) z (inl (omega arith)), r)
        (ap (λ (t : List (List ℕ)). bytes ∷ t) (entries-write n (off + z) later c))

  -- The log stays compact, if what the write leaves in the slot can be read.
  pub IsCompact-write :
      (n off : ℕ)
      → next_erased ops n d sector z off ≡ some o
      → IsCompact ops sector z n d off
      → (rec : List ℕ) → ops.read d' (sector + o) z ≡ some rec
      → IsCompact ops sector z n d' off
  unfolding next_erased AllErased IsCompact
  IsCompact-write zero off h c rec r' = ground arith
  IsCompact-write (suc n) off h (inl (e, rest)) rec r' =
      let same : off ≡ o = ground arith in
      let rest' = AllErased-apart n (off + z) (omega arith) rest in
      elim (Bool-cases (erased_at ops sector z d' off)) [
        | inl e' ↦ inl (e', rest')
        | inr e' ↦ inr (rec, e', rw same r', AllErased-IsCompact ops sector z n d' (off + z) rest')
      ]
  IsCompact-write (suc n) off h (inr (bytes, e, r, c)) rec r' =
      let later : next_erased ops n d sector z (off + z) ≡ some o = ground arith in
      let le = next_erased-le ops sector z n d (off + z) o later in
      inr (
        bytes,
        rw (erased-apart off (inl le)) e,
        rw (apart (sector + off) z (inl (omega arith))) r,
        IsCompact-write n (off + z) later c rec r',
      )

-- An erase of the sector of the log.
module _ (ops : FlashOps) (laws : FlashLaws ops) (sector z : ℕ)
    (aligned : sector % ops.sector_size ≡ 0) (small : z ≤ 32) (filled : 1 ≤ z) (d : ops.Dev)
    (erased : (ops.erase_sector d sector).0 ≡ true) where
  pub erased_at-erase :
      (off : ℕ)
      → off + z ≤ ops.sector_size
      → erased_at ops sector z (ops.erase_sector d sector).1 off ≡ true
  unfolding record_is_erased
  erased_at-erase off h =
      rw
        (laws.read_erased d sector (sector + off) z erased aligned filled (omega arith)
          (omega arith))
        (ground (arith, all_ff-replicate z))

  pub AllErased-erase :
      (n off : ℕ)
      → off + n * z ≤ ops.sector_size
      → AllErased ops sector z n (ops.erase_sector d sector).1 off
  unfolding AllErased
  AllErased-erase zero off h = tt
  AllErased-erase (suc n) off h =
      (erased_at-erase off (grind arith), AllErased-erase n (off + z) (omega arith))
