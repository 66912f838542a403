-- ===== src/Can/Transport/Drain.antt =====
-- The poll of the CAN platform layer comes to its end and empties the ring (app_can.c).
use hpm53m1_g6618motor.Base.{
  ℕ, zero, suc, ◌<◌, ◌≡◌, refl, sym, ap, ◌∙◌, true, none, some, List, [], ◌∷◌, arith, inl, inr,
  length,
}
use hpm53m1_g6618motor.Can.Transport.{ring_size, Message, Transport, ring_pop, poll_round, poll}
use hpm53m1_g6618motor.Can.Transport.Fifo.{
  IsRing, contents, ring_pop-IsRing, ring_pop-contents, length-messages,
}
use hpm53m1_g6618motor.Can.Transport.History.{
  poll_round-none, poll_round-some, ring_pop-has_callback,
}

module _ {K : Type 0} (callback : Message → K → K) where
  -- The callback on each message in turn.
  abbrev pub deliver : List Message → K → K
  deliver [] k = k
  deliver (m ∷ q) k = deliver q (callback m k)

  -- The poll from `s` on `n` rounds ends with an empty ring, where the callback has had the messages.
  abbrev Drains : ℕ → Transport → K → Type 0
  Drains n s k =
      (s' : Transport) × (poll callback n (s, k) ≡ some (s', deliver (contents s) k))
      × IsRing s'
      × (contents s' ≡ [])

  poll-idle :
      (n : ℕ) (s : Transport) (k : K)
      → poll_round callback (s, k) ≡ none
      → poll callback (suc n) (s, k) ≡ some (s, k)
  unfolding poll
  poll-idle n s k e = rw (e, poll) refl

  poll-delivers :
      (n : ℕ) (s s' : Transport) (k k' : K)
      → poll_round callback (s, k) ≡ some (s', k')
      → poll callback (suc n) (s, k) ≡ poll callback n (s', k')
  unfolding poll
  poll-delivers n s s' k k' e = rw (e, poll) refl

  poll-Drains :
      (n : ℕ) (s : Transport) (k : K)
      → s.count < n
      → IsRing s
      → s.has_callback ≡ true
      → Drains n s k
  poll-Drains zero s k less r set = absurd (omega arith)
  poll-Drains (suc n) s k less r set = elim (ring_pop-contents s r) [
    | inl (z, e, empty) ↦ (
      s,
      poll-idle n s k (poll_round-none callback s k e)
          ∙ ap (λ q. some (s, deliver q k)) (sym empty),
      r,
      empty,
    )
    | inr (e, more) ↦
        let s₁ = (ring_pop s).1 in
        let m = s.buf s.tail in
        let taken : s.count ≡ suc s₁.count =
          sym (length-messages s.buf s.tail s.count)
          ∙ ap length more
          ∙ ap suc (length-messages s₁.buf s₁.tail s₁.count) in
        let fewer : s₁.count < n = omega (arith, taken, less) in
        let (s', all, r', empty) =
          poll-Drains n s₁ (callback m k) fewer (ring_pop-IsRing s r)
            (ring_pop-has_callback s ∙ set) in
        (
          s',
          poll-delivers n s s₁ k (callback m k) (poll_round-some callback s k m set e)
              ∙ all
              ∙ ap (λ q. some (s', deliver q k)) (sym more),
          r',
          empty,
        )
  ]

  -- From a well-formed ring with the callback set, the poll without interrupts ends after at most
  -- seventeen rounds: then the ring is well formed and empty, and the callback has been given every
  -- waiting message exactly once, oldest first.
  pub poll_drains :
      (s : Transport) (k : K)
      → IsRing s
      → s.has_callback ≡ true
      → (s' : Transport) × (poll callback (suc ring_size) (s, k)
          ≡ some (s', deliver (contents s) k))
        × IsRing s'
        × (contents s' ≡ [])
  poll_drains s k r set = poll-Drains (suc ring_size) s k (omega (arith, r.count_in)) r set
