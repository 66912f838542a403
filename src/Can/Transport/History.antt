-- ===== src/Can/Transport/History.antt =====
-- Interrupts and rounds of the poll in any order: the ring refines a bounded queue (app_can.c).
use hpm53m1_g6618motor.Base.{
  ℕ, ◌≡◌, refl, sym, ap, ◌∙◌, true, not, none, some, List, [], ◌∷◌, if◌then◌else◌, inl, inr, arith,
  Bool-cases,
}
use hpm53m1_g6618motor.Can.Transport.{
  Frame, Message, Transport, flagged, rx_fifo0_new_msg, event_bus_off, ring_pop, irq_handler,
  poll_round,
}
use hpm53m1_g6618motor.Can.Transport.Fifo.{
  IsRing, contents, enqueue_frames, ring_pop-IsRing, ring_pop-contents, irq_handler-contents,
}

-- An interrupt with its event flags and the frames that the driver hands over, or a round of the loop
-- of `app_can_poll`; the critical sections let no interrupt into a round.
pub data Event : Type 0 where
  irq : ℕ → List Frame → Event
  round : Event

module _ {H K : Type 0} (hook : Message → H → H) (callback : Message → K → K) where
  unfoldable pub step : Event → Transport × (H × K) → Transport × (H × K)
  step (irq flags frames) (s, (h, k)) =
      let (s', h') = irq_handler hook flags frames (s, h) in (s', (h', k))
  step round (s, (h, k)) = elim (poll_round callback (s, k)) [
    | none ↦ (s, (h, k))
    | some (s', k') ↦ (s', (h, k'))
  ]

  unfoldable pub run : List Event → Transport × (H × K) → Transport × (H × K)
  run [] t = t
  run (e ∷ rest) t = run rest (step e t)

pub ring_pop-has_callback : (s : Transport) → (ring_pop s).1.has_callback ≡ s.has_callback
unfolding ring_pop
ring_pop-has_callback s = ground arith

-- The same events on a queue of at most sixteen messages: an interrupt enqueues what finds room, a bus
-- that goes off empties the queue, and a round hands the oldest message to the callback.
module _ {K : Type 0} (callback : Message → K → K) where
  unfoldable pub queue_step : Event → List Message × K → List Message × K
  queue_step (irq flags frames) (q, k) = (
    if flagged flags event_bus_off
        then []
        else if flagged flags rx_fifo0_new_msg
        then enqueue_frames frames q
        else q,
    k,
  )
  queue_step round ([], k) = ([], k)
  queue_step round (m ∷ q, k) = (q, callback m k)

  unfoldable pub queue_run : List Event → List Message × K → List Message × K
  queue_run [] t = t
  queue_run (e ∷ rest) t = queue_run rest (queue_step e t)

module _ {K : Type 0} (callback : Message → K → K) where
  pub poll_round-none :
      (s : Transport) (k : K) → ring_pop s ≡ (none, s) → poll_round callback (s, k) ≡ none
  unfolding poll_round
  poll_round-none s k e = elim (Bool-cases s.has_callback) [
    | inl set ↦ rw (ap (λ m. m.0) e, set, poll_round) refl
    | inr set ↦ rw (set, poll_round) refl
  ]

  pub poll_round-some :
      (s : Transport) (k : K) (m : Message)
      → s.has_callback ≡ true
      → (ring_pop s).0 ≡ some m
      → poll_round callback (s, k) ≡ some ((ring_pop s).1, callback m k)
  unfolding poll_round
  poll_round-some s k m set e =
      rw (e, poll_round) (ap (λ c. if not c then none else some ((ring_pop s).1, callback m k)) set)

module _ {H K : Type 0} (hook : Message → H → H) (callback : Message → K → K) where
  -- The ring is well formed, the callback is set, and the ring holds the queue.
  abbrev Refines : Transport × (H × K) → List Message × K → Type 0
  Refines (s, (h, k)) q = IsRing s × (s.has_callback ≡ true) × ((contents s, k) ≡ q)

  step-idle :
      (s : Transport) (h : H) (k : K)
      → poll_round callback (s, k) ≡ none
      → step hook callback round (s, (h, k)) ≡ (s, (h, k))
  unfolding step
  step-idle s h k e = rw (e, step) refl

  step-delivers :
      (s s' : Transport) (h : H) (k k' : K)
      → poll_round callback (s, k) ≡ some (s', k')
      → step hook callback round (s, (h, k)) ≡ (s', (h, k'))
  unfolding step
  step-delivers s s' h k k' e = rw (e, step) refl

  step-Refines :
      (e : Event) (s : Transport) (h : H) (k : K)
      → IsRing s
      → s.has_callback ≡ true
      → Refines (step hook callback e (s, (h, k))) (queue_step callback e (contents s, k))
  unfolding step queue_step
  step-Refines (irq flags frames) s h k r set =
      let (ring, back, all) = irq_handler-contents hook flags frames s h r in
      (ring, back ∙ set, ap (λ q. (q, k)) all)
  step-Refines round s h k r set = elim (ring_pop-contents s r) [
    | inl (z, e, empty) ↦
        rw (step-idle s h k (poll_round-none callback s k e))
          (r, set, ap (λ q. (q, k)) empty ∙ sym (ap (λ q. queue_step callback round (q, k)) empty))
    | inr (e, more) ↦
        let s' = (ring_pop s).1 in
        let k' = callback (s.buf s.tail) k in
        rw (step-delivers s s' h k k' (poll_round-some callback s k (s.buf s.tail) set e)) (
          ring_pop-IsRing s r,
          ring_pop-has_callback s ∙ set,
          sym (ap (λ q. queue_step callback round (q, k)) more),
        )
  ]

  -- From a well-formed ring with the callback set, any sequence of interrupts and poll rounds leaves it
  -- so, and the waiting messages and what the callback was given are those of the bounded queue: no
  -- message is delivered twice, out of order, or lost but by overflow or a bus that went off.
  pub run_refines_queue :
      (events : List Event) (s : Transport) (h : H) (k : K)
      → IsRing s
      → s.has_callback ≡ true
      → let (s', (h', k')) = run hook callback events (s, (h, k)) in
        IsRing s'
        × (s'.has_callback ≡ true)
        × ((contents s', k') ≡ queue_run callback events (contents s, k))
  unfolding run queue_run
  run_refines_queue [] s h k r set = (r, set, refl)
  run_refines_queue (e ∷ rest) s h k r set =
      let (s₁, (h₁, k₁)) = step hook callback e (s, (h, k)) in
      let (ring, back, same) = step-Refines e s h k r set in
      let (ring', back', same') = run_refines_queue rest s₁ h₁ k₁ ring back in
      (ring', back', same' ∙ ap (queue_run callback rest) same)
