-- ===== src/Boot/Log/Append.antt =====
-- What `log_append` (boot_meta.c) does to the records of a log, when it succeeds and when it is cut
-- short.
use mathlib.Core.List.{append-nil}
use hpm53m1_g6618motor.Base.{
  ℕ, suc, ◌+◌, ◌*◌, ◌%◌, ◌≤◌, ◌≡◌, refl, ap, ◌∙◌, ◌⊎◌, inl, inr, true, false, none, some, List, [],
  ◌∷◌, ◌++◌, length, arith, if◌then◌else◌, Option-cases, Bool-cases, all_ff, eq_of_same_bytes,
}
use hpm53m1_g6618motor.Flash.{FlashOps, FlashLaws, Apart}
use hpm53m1_g6618motor.Boot.Log.{
  rounds_of, record_is_erased, next_erased, log_next_slot, log_append, log_verify, write_record,
}
use hpm53m1_g6618motor.Boot.Log.Entries.{
  entries, erased_at, AllErased, IsCompact, entries-AllErased,
}
use hpm53m1_g6618motor.Boot.Log.Change.{
  slot_entry, entries-write, IsCompact-write, AllErased-erase, AllErased-IsCompact,
}

module _ (ops : FlashOps) (d : ops.Dev) (addr : ℕ) (rec : List ℕ) where
  log_verify-read : log_verify ops d addr rec ≡ true → ops.read d addr (length rec) ≡ some rec
  unfolding log_verify
  log_verify-read h = elim (Option-cases (ops.read d addr (length rec))) [
    | inl m ↦ cc (rw (m, log_verify) at h)
    | inr (v, m) ↦ rw m (ap some (eq_of_same_bytes v rec (rw (m, log_verify) at h)))
  ]

  pub write_record-program : (write_record ops d addr rec).1 ≡ (ops.program d addr rec).1
  unfolding write_record
  write_record-program = ground arith

module _ (ops : FlashOps) (d : ops.Dev) (addr : ℕ) (rec : List ℕ) where
  write_record-read :
      (write_record ops d addr rec).0 ≡ true
      → ops.read (ops.program d addr rec).1 addr (length rec) ≡ some rec
  unfolding write_record
  write_record-read h = ground (arith, log_verify-read ops (ops.program d addr rec).1 addr rec)

  write_record-fails :
      ops.program d addr rec ≡ (false, d) → write_record ops d addr rec ≡ (false, d)
  unfolding write_record
  write_record-fails h = ground arith

module _ (ops : FlashOps) (d : ops.Dev) (sector : ℕ) (rec : List ℕ) where
  pub log_append-room :
      (o : ℕ)
      → next_erased ops (rounds_of (length rec)) d sector (length rec) 0 ≡ some o
      → log_append ops d sector rec ≡ write_record ops d (sector + o) rec
  unfolding log_append log_next_slot
  log_append-room o h = ground arith

  pub log_append-full :
      next_erased ops (rounds_of (length rec)) d sector (length rec) 0 ≡ none
      → log_append ops d sector rec ≡ (
          if (ops.erase_sector d sector).0
          then write_record ops (ops.erase_sector d sector).1 (sector + 0) rec
          else (false, (ops.erase_sector d sector).1))
  unfolding log_append log_next_slot
  log_append-full h = ground arith

module _ (ops : FlashOps) (laws : FlashLaws ops) (sector : ℕ) (rec : List ℕ) (m : ℕ)
    (rounds : rounds_of (length rec) ≡ suc m) (room : suc m * length rec ≤ ops.sector_size)
    (small : length rec ≤ 32) (filled : 1 ≤ length rec)
    (aligned : sector % ops.sector_size ≡ 0) where
  abbrev z : ℕ
  z = length rec

  abbrev records : ops.Dev → List (List ℕ)
  records d = entries ops sector z (suc m) d 0

  abbrev Compact : ops.Dev → Type 0
  Compact d = IsCompact ops sector z (suc m) d 0

  -- One write at the first erased slot that reads back as `rec`.
  written :
      (d : ops.Dev) (o : ℕ)
      → next_erased ops (suc m) d sector z 0 ≡ some o
      → Compact d
      → all_ff rec ≡ false
      → let d' = (ops.program d (sector + o) rec).1 in
        ops.read d' (sector + o) z ≡ some rec → Compact d' × (records d' ≡ records d ++ rec ∷ [])
  unfolding record_is_erased
  written d o h c mark r =
      let d' = (ops.program d (sector + o) rec).1 in
      let apart = λ (a n : ℕ) (p : Apart a n (sector + o) z).
        laws.read_program_apart d a (sector + o) n rec p in
      let filled : slot_entry ops sector z o d d' apart ≡ rec ∷ [] = rw r (ground arith) in
      (
        IsCompact-write ops sector z o d d' apart (suc m) 0 h c rec r,
        rw (← filled) (entries-write ops sector z o d d' apart (suc m) 0 h c),
      )

  first_erased :
      (d : ops.Dev)
      → AllErased ops sector z (suc m) d 0
      → next_erased ops (suc m) d sector z 0 ≡ some 0
  unfolding next_erased AllErased
  first_erased d h = rw h.0

  -- A successful append adds `rec` behind the records that were there or, where no slot was erased,
  -- leaves `rec` alone in the erased sector; the log stays compact.
  pub log_append_ok :
      (d : ops.Dev)
      → Compact d
      → all_ff rec ≡ false
      → (log_append ops d sector rec).0 ≡ true
      → let d' = (log_append ops d sector rec).1 in
        Compact d' × ((records d' ≡ records d ++ rec ∷ []) ⊎ (records d' ≡ rec ∷ []))
  log_append_ok d c mark ok = elim (Option-cases (next_erased ops (suc m) d sector z 0)) [
    | inl full ↦
        let e = log_append-full ops d sector rec (rw rounds full) in
        elim (Bool-cases (ops.erase_sector d sector).0) [
          | inl erased ↦
              let d₁ = (ops.erase_sector d sector).1 in
              let e₁ : log_append ops d sector rec ≡ write_record ops d₁ (sector + 0) rec =
                rw e (rw erased) in
              let blank =
                AllErased-erase ops laws sector z aligned small filled d erased (suc m) 0
                  (omega arith) in
              let w =
                written d₁ 0 (first_erased d₁ blank)
                  (AllErased-IsCompact ops sector z (suc m) d₁ 0 blank) mark
                  (write_record-read ops d₁ (sector + 0) rec (rw e₁ at ok)) in
              let none_left : records d₁ ≡ [] = entries-AllErased ops sector z (suc m) d₁ 0 blank in
              rw (e₁, write_record-program ops d₁ (sector + 0) rec) (w.0, inr (rw none_left at w.1))
          | inr failed ↦ cc (rw (e, failed) at ok)
        ]
    | inr (o, h) ↦
        let e = log_append-room ops d sector rec o (rw rounds h) in
        let w = written d o h c mark (write_record-read ops d (sector + o) rec (rw e at ok)) in
        rw (e, write_record-program ops d (sector + o) rec) (w.0, inl w.1)
  ]

  -- However the write of an append ends, the records that were there stay: a scan of the log
  -- computes what it computed before, or one step more with what the slot now holds.
  pub log_append_keeps :
      (d : ops.Dev) (o : ℕ)
      → next_erased ops (suc m) d sector z 0 ≡ some o
      → Compact d
      → let d' = (log_append ops d sector rec).1 in
        (records d' ≡ records d)
        ⊎ ((bytes : List ℕ) × (ops.read d' (sector + o) z ≡ some bytes)
            × (records d' ≡ records d ++ bytes ∷ []))
  log_append_keeps d o h c =
      let e = log_append-room ops d sector rec o (rw rounds h) in
      let d' = (ops.program d (sector + o) rec).1 in
      let apart = λ (a n : ℕ) (p : Apart a n (sector + o) z).
        laws.read_program_apart d a (sector + o) n rec p in
      let w = entries-write ops sector z o d d' apart (suc m) 0 h c in
      rw (e, write_record-program ops d (sector + o) rec)
        (elim (Bool-cases (erased_at ops sector z d' o)) [
          | inl b ↦ inl ((rw b at w) ∙ append-nil (records d))
          | inr b ↦ elim (Option-cases (ops.read d' (sector + o) z)) [
            | inl q ↦ inl ((rw (b, q) at w) ∙ append-nil (records d))
            | inr (bytes, q) ↦ inr (bytes, q, rw (b, q) at w)
          ]
        ])

  -- Where no slot is erased, the append erases the sector; if its write then fails and leaves the
  -- sector as it is, no record is left.
  pub log_append_lost :
      (d : ops.Dev)
      → next_erased ops (suc m) d sector z 0 ≡ none
      → (ops.erase_sector d sector).0 ≡ true
      → let d₁ = (ops.erase_sector d sector).1 in
        ops.program d₁ (sector + 0) rec ≡ (false, d₁)
        → ((log_append ops d sector rec).0 ≡ false) × (records (log_append ops d sector rec).1 ≡ [])
  log_append_lost d full erased fails =
      let d₁ = (ops.erase_sector d sector).1 in
      let e = log_append-full ops d sector rec (rw rounds full) in
      let blank =
        AllErased-erase ops laws sector z aligned small filled d erased (suc m) 0 (omega arith) in
      rw (e, erased, write_record-fails ops d₁ (sector + 0) rec fails)
        (refl, entries-AllErased ops sector z (suc m) d₁ 0 blank)
