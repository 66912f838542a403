-- ===== src/Cogging/Chunks.antt =====
-- Programming a record in chunks (app_cogging_store.c, the loop of `app_cogging_store_save`).
use hpm53m1_g6618motor.Base.{
  ℕ, zero, suc, ◌+◌, ◌-◌, ◌≤◌, ◌≡◌, refl, sym, ap, ◌∙◌, true, false, Option, none, some, List, [],
  ◌∷◌, ◌++◌, ◌==◌, length, take, drop, replicate, length-take, length-drop, take-append-drop, arith,
  Bool-cases, inl, inr, IsBytes, byte_at-IsBytes,
}
use hpm53m1_g6618motor.Flash.{FlashOps, FlashLaws, Apart}
use hpm53m1_g6618motor.Param.Place.{ReadsParts}
use hpm53m1_g6618motor.Cogging.{program_chunks}

take_all : (bs : List ℕ) (n : ℕ) → length bs ≤ n → take n bs ≡ bs
take_all [] zero h = refl
take_all [] (suc n) h = refl
take_all (b ∷ bs) zero h = absurd (omega (arith, h))
take_all (b ∷ bs) (suc n) h = ap (λ t. b ∷ t) (take_all bs n (omega (arith, h)))

drop_all : (bs : List ℕ) (n : ℕ) → length bs ≤ n → drop n bs ≡ []
drop_all [] zero h = refl
drop_all [] (suc n) h = refl
drop_all (b ∷ bs) zero h = absurd (omega (arith, h))
drop_all (b ∷ bs) (suc n) h = drop_all bs n (omega (arith, h))

IsBytes-take : (n : ℕ) (bs : List ℕ) → IsBytes bs → IsBytes (take n bs)
IsBytes-take zero bs h = tt
IsBytes-take (suc n) [] h = tt
IsBytes-take (suc n) (b ∷ bs) h = (h.0, IsBytes-take n bs h.1)

IsBytes-drop : (n : ℕ) (bs : List ℕ) → IsBytes bs → IsBytes (drop n bs)
IsBytes-drop zero bs h = h
IsBytes-drop (suc n) [] h = tt
IsBytes-drop (suc n) (b ∷ bs) h = IsBytes-drop n bs h.1

is_zero : (n : ℕ) → (n == 0) ≡ true → n ≡ 0
is_zero n h = ground (arith, h)

not_zero : (n : ℕ) → (n == 0) ≡ false → 1 ≤ n
not_zero n h = ground (arith, h)

Apart-rest : (b k a len m : ℕ) → Apart b k a len → m ≡ len - 256 → 1 ≤ m → Apart b k (a + 256) m
Apart-rest b k a len m (inl h) e l = inl (omega (arith, h))
Apart-rest b k a len m (inr h) e l = inr (omega (arith, h, e, l))

both_empty : (as' bs : List ℕ) → length as' ≡ 0 → length bs ≡ 0 → as' ≡ bs
both_empty [] [] h k = refl
both_empty [] (b ∷ bs) h k = absurd (omega (arith, k))
both_empty (a ∷ as') bs h k = absurd (omega (arith, h))

some_inj : (as' bs : List ℕ) (o : Option (List ℕ)) → o ≡ some as' → o ≡ some bs → as' ≡ bs
some_inj as' bs o h k = ap (λ o. elim o [ none ↦ as' | some x ↦ x ]) (sym h ∙ k)

module _ (ops : FlashOps) (laws : FlashLaws ops) (parts : ReadsParts ops) where
  -- The range reads as erased, from `a` on.
  abbrev pub Blank : ops.Dev → ℕ → ℕ → Type 0
  Blank d a len =
      (b n : ℕ) → 1 ≤ n → a ≤ b → b + n ≤ a + len → ops.read d b n ≡ some (replicate n 255)

  program_chunks-round :
      (n a : ℕ) (src : List ℕ) (d : ops.Dev)
      → 1 ≤ length src
      → (program_chunks ops (suc n) a src d).0 ≡ true
      → let m = ops.program d a (take 256 src) in
        (m.0 ≡ true)
        × (program_chunks ops (suc n) a src d ≡ program_chunks ops n (a + 256) (drop 256 src) m.1)
  unfolding program_chunks
  program_chunks-round n a src d some_bytes ok =
      let none_left : (length src == 0) ≡ false = ground arith in
      let m = ops.program d a (take 256 src) in
      elim (Bool-cases m.0) [
        | inl done ↦ (done, rw (none_left, done) refl)
        | inr failed ↦ absurd (cc (rw (none_left, failed) at ok))
      ]

  program_chunks-empty :
      (n a : ℕ) (src : List ℕ) (d : ops.Dev) → length src ≡ 0 → (program_chunks ops n a src d).1 ≡ d
  unfolding program_chunks
  program_chunks-empty zero a src d h = refl
  program_chunks-empty (suc n) a src d h =
      let none_left : (length src == 0) ≡ true = ground arith in rw none_left refl

  -- The chunks touch their own range only.
  program_chunks-Apart :
      (n a : ℕ) (src : List ℕ) (d : ops.Dev) (b k : ℕ)
      → Apart b k a (length src)
      → (program_chunks ops n a src d).0 ≡ true
      → ops.read (program_chunks ops n a src d).1 b k ≡ ops.read d b k
  unfolding program_chunks
  program_chunks-Apart zero a src d b k p ok = refl
  program_chunks-Apart (suc n) a src d b k p ok = elim (Bool-cases (length src == 0)) [
    | inl e ↦ rw e refl
    | inr e ↦
        let (done, same) = program_chunks-round n a src d (not_zero (length src) e) ok in
        let t = length-take 256 src in
        let r = length-drop 256 src in
        let d₁ = (ops.program d a (take 256 src)).1 in
        let apart = laws.read_program_apart d b a k (take 256 src) (ground (arith, p, t)) in
        rw same (elim (Bool-cases (length (drop 256 src) == 0)) [
          | inl last ↦
              ap (λ x. ops.read x b k)
                (program_chunks-empty n (a + 256) (drop 256 src) d₁
                  (is_zero (length (drop 256 src)) last))
              ∙ apart
          | inr more ↦
              program_chunks-Apart n (a + 256) (drop 256 src) d₁ b k
                (Apart-rest b k a (length src) (length (drop 256 src)) p r
                  (not_zero (length (drop 256 src)) more))
                (rw same at ok)
              ∙ apart
        ])
  ]

  -- What reads back is what was programmed.
  pub program_chunks-reads :
      (n a : ℕ) (src : List ℕ) (d : ops.Dev) (bs : List ℕ)
      → IsBytes src
      → Blank d a (length src)
      → (program_chunks ops n a src d).0 ≡ true
      → ops.read (program_chunks ops n a src d).1 a (length src) ≡ some bs
      → bs ≡ src
  program_chunks-reads zero a src d bs bytes blank ok found =
      let z : length src ≡ 0 = unfold program_chunks in ground arith in
      both_empty bs src (laws.read_length _ a (length src) bs found ∙ z) z
  program_chunks-reads (suc n) a src d bs bytes blank ok found =
      let total = laws.read_length _ a (length src) bs found in
      elim (Bool-cases (length src == 0)) [
        | inl e ↦ let z = is_zero (length src) e in both_empty bs src (total ∙ z) z
        | inr e ↦
            let chunk = take 256 src in
            let rest = drop 256 src in
            let (done, same) = program_chunks-round n a src d (not_zero (length src) e) ok in
            let d₁ = (ops.program d a chunk).1 in
            let d' = (program_chunks ops n (a + 256) rest d₁).1 in
            let t = length-take 256 src in
            let r = length-drop 256 src in
            let ok' = ap (λ m. m.0) (sym same) ∙ ok in
            let found' = ap (λ m. ops.read m.1 a (length src)) (sym same) ∙ found in
            let programmed =
              laws.read_programmed d a chunk
                (λ i. byte_at-IsBytes chunk i (IsBytes-take 256 src bytes)) done
                (blank a (length chunk) (omega (arith, t, not_zero (length src) e)) (omega arith)
                  (omega (arith, t))) in
            let kept =
              program_chunks-Apart n (a + 256) rest d₁ a (length chunk) (inl (omega (arith, t))) ok'
              ∙ programmed in
            let part =
              parts.read_part d' a (length src) 0 (length chunk) bs
                (omega (arith, t, not_zero (length src) e)) (omega (arith, t)) found' in
            let first : take (length chunk) bs ≡ chunk =
              some_inj (take (length chunk) bs) chunk (ops.read d' (a + 0) (length chunk)) part
                (ap (λ x. ops.read d' x (length chunk)) (omega arith) ∙ kept) in
            elim (Bool-cases (length rest == 0)) [
              | inl last ↦
                  let whole : length src ≤ 256 = omega (arith, is_zero (length rest) last, r) in
                  let small : length bs ≤ length chunk = omega (arith, t, total, whole) in
                  sym (take_all bs (length chunk) small) ∙ first ∙ take_all src 256 whole
              | inr more ↦
                  let big = not_zero (length rest) more in
                  let m = length rest in
                  let tail' = take m (drop 256 bs) in
                  let part' =
                    parts.read_part d' a (length src) 256 m bs big (omega (arith, r, big)) found' in
                  let blank' : Blank d₁ (a + 256) m = λ b k some_bytes lo hi.
                    laws.read_program_apart d b a k chunk (inr (omega (arith, t, lo)))
                    ∙ blank b k some_bytes (omega (arith, lo)) (omega (arith, hi, r, big)) in
                  let second =
                    program_chunks-reads n (a + 256) rest d₁ tail' (IsBytes-drop 256 src bytes)
                      blank' ok' part' in
                  let u = length-drop 256 bs in
                  let last' = take_all (drop 256 bs) m (omega (arith, u, total, r, big)) in
                  let full : 256 ≡ length chunk = omega (arith, t, r, big) in
                  let head' : take 256 bs ≡ chunk = ap (λ x. take x bs) full ∙ first in
                  sym (take-append-drop 256 bs)
                  ∙ ap (λ x. x ++ drop 256 bs) head'
                  ∙ ap (λ x. chunk ++ x) (sym last' ∙ second)
                  ∙ take-append-drop 256 src
            ]
      ]
