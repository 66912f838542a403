-- ===== src/Can/Transport/Fifo.antt =====
-- The ring of the CAN platform layer is a first-in first-out queue of at most sixteen messages, under
-- any sequence of interrupts and rounds of the poll (app_can.c).
use hpm53m1_g6618motor.Base.{
  ℕ, zero, suc, ◌+◌, ◌%◌, ◌≤◌, ◌<◌, ◌≡◌, ◌⊎◌, refl, ap, ◌∙◌, true, false, none, some, List, [], ◌∷◌,
  ◌++◌, arith, length, if◌then◌else◌, ltb, ◌==◌, Bool-cases, inl, inr,
}
use mathlib.Core.Path.{ap₂}
use hpm53m1_g6618motor.Can.Transport.{
  ring_size, Frame, Message, Transport, flagged, rx_fifo0_new_msg, event_bus_off, message_of,
  note_event_flags, ring_pop, ring_push, take_frame, take_frames, irq_handler,
}

pub record IsRing (s : Transport) : Type 0 where
  pub tail_in : s.tail < ring_size
  pub count_in : s.count ≤ ring_size
  pub head_at : s.head ≡ (s.tail + s.count) % ring_size

-- `n` messages from index `i` on, going round at the end of the array.
abbrev pub messages : (ℕ → Message) → ℕ → ℕ → List Message
messages buf i zero = []
messages buf i (suc n) = buf i ∷ messages buf ((i + 1) % ring_size) n

-- The waiting messages, oldest first.
abbrev pub contents : Transport → List Message
contents s = messages s.buf s.tail s.count

pub length-messages : (buf : ℕ → Message) (i n : ℕ) → length (messages buf i n) ≡ n
length-messages buf i zero = refl
length-messages buf i (suc n) = ap suc (length-messages buf ((i + 1) % ring_size) n)

-- A bounded queue: what the ring promises.
abbrev pub enqueue : List Message → Message → List Message
enqueue q m = if ltb (length q) ring_size then q ++ m ∷ [] else q

abbrev pub enqueue_frames : List Frame → List Message → List Message
enqueue_frames [] q = q
enqueue_frames (f ∷ rest) q = enqueue_frames rest (enqueue q (message_of f))

-- A write at the free index behind `n` messages leaves them, and is the message after them.
messages-push :
    (buf : ℕ → Message) (i n h : ℕ) (m : Message)
    → i < ring_size
    → n < ring_size
    → h ≡ (i + n) % ring_size
    → messages (λ j. if j == h then m else buf j) i (suc n) ≡ messages buf i n ++ m ∷ []
messages-push buf i zero h m hi hn e = let same : (i == h) ≡ true = ground arith in rw same refl
messages-push buf i (suc n) h m hi hn e =
    let other : (i == h) ≡ false = ground arith in
    ap₂ ◌∷◌ (ap (λ c. if c then m else buf i) other)
      (messages-push buf ((i + 1) % ring_size) n h m (omega arith) (omega arith) (omega arith))

ring_push-IsRing : (m : Message) (s : Transport) → IsRing s → IsRing (ring_push m s)
unfolding ring_push
ring_push-IsRing m s r = ground arith

-- A push enqueues the message.
ring_push-contents :
    (m : Message) (s : Transport) → IsRing s → contents (ring_push m s) ≡ enqueue (contents s) m
unfolding ring_push
ring_push-contents m s r = elim (Bool-cases (ltb s.count ring_size)) [
  | inr full ↦ rw (full, length-messages s.buf s.tail s.count, full) refl
  | inl room ↦
      let more : (s.count + 1) % 256 ≡ suc s.count = ground (arith, room) in
      rw (room, length-messages s.buf s.tail s.count, room, more)
        (messages-push s.buf s.tail s.count s.head m r.tail_in (ground (arith, room)) r.head_at)
]

pub ring_pop-IsRing : (s : Transport) → IsRing s → IsRing (ring_pop s).1
unfolding ring_pop
ring_pop-IsRing s r = ground arith

-- A pop takes the oldest message.
pub ring_pop-contents :
    (s : Transport)
    → IsRing s
    → ((s.count ≡ 0) × (ring_pop s ≡ (none, s)) × (contents s ≡ []))
      ⊎ ((ring_pop s).0 ≡ some (s.buf s.tail))
        × (contents s ≡ s.buf s.tail ∷ contents (ring_pop s).1)
unfolding ring_pop
ring_pop-contents s r = elim (Bool-cases (s.count == 0)) [
  | inl e ↦
      let z : s.count ≡ 0 = ground (arith, e) in inl (z, rw e refl, ap (messages s.buf s.tail) z)
  | inr e ↦
      let less : s.count ≡ suc ((s.count + 255) % 256) = ground (arith, e, r.count_in) in
      inr (rw e refl, rw e (ap (messages s.buf s.tail) less))
]

-- What the interrupt changes beside the ring leaves the callback and the storage.
ring_push-has_callback :
    (m : Message) (s : Transport) → (ring_push m s).has_callback ≡ s.has_callback
unfolding ring_push
ring_push-has_callback m s = ground arith

module _ {H : Type 0} (hook : Message → H → H) where
  -- The frames of an interrupt are enqueued in order.
  pub take_frames-contents :
      (frames : List Frame) (s : Transport) (h : H)
      → IsRing s
      → let s' = (take_frames hook frames (s, h)).0 in
        IsRing s'
        × (s'.has_callback ≡ s.has_callback)
        × (contents s' ≡ enqueue_frames frames (contents s))
  unfolding take_frames take_frame
  take_frames-contents [] s h r = (r, refl, refl)
  take_frames-contents (f ∷ rest) s h r =
      let m = message_of f in
      let counted = record s {
        stats = record (s.stats) {
          rx_count = (s.stats.rx_count + 1) % 4294967296;
          last_rx_id = m.id;
          last_rx_dlc = m.dlc;
        };
      } in
      let r₁ : IsRing counted = record {
        tail_in = r.tail_in;
        count_in = r.count_in;
        head_at = r.head_at;
      } in
      let s₁ = ring_push m counted in
      let (ring, back, all) =
        take_frames-contents rest s₁ (if s.has_hook then hook m h else h)
          (ring_push-IsRing m counted r₁) in
      (
        ring,
        back ∙ ring_push-has_callback m counted,
        all ∙ ap (enqueue_frames rest) (ring_push-contents m counted r₁),
      )

  pub irq_handler-contents :
      (flags : ℕ) (frames : List Frame) (s : Transport) (h : H)
      → IsRing s
      → let s' = (irq_handler hook flags frames (s, h)).0 in
        IsRing s'
        × (s'.has_callback ≡ s.has_callback)
        × (contents s' ≡ (
            if flagged flags event_bus_off
            then []
            else if flagged flags rx_fifo0_new_msg
            then enqueue_frames frames (contents s)
            else contents s))
  unfolding irq_handler
  irq_handler-contents flags frames s h r =
      let noted = record s {
        stats =
            note_event_flags flags
              (record (s.stats) { rx_irq_count = (s.stats.rx_irq_count + 1) % 4294967296 });
      } in
      let r₁ : IsRing noted = record {
        tail_in = r.tail_in;
        count_in = r.count_in;
        head_at = r.head_at;
      } in
      let (ring, back, all) = take_frames-contents frames noted h r₁ in
      let t =
        if flagged flags rx_fifo0_new_msg then take_frames hook frames (noted, h) else (noted, h) in
      let taken : IsRing t.0
          × (t.0.has_callback ≡ s.has_callback)
          × (contents t.0 ≡ (
              if flagged flags rx_fifo0_new_msg
              then enqueue_frames frames (contents s)
              else contents s)) =
        elim (Bool-cases (flagged flags rx_fifo0_new_msg)) [
          | inl e ↦ rw e (ring, back, all)
          | inr e ↦ rw e (r₁, refl, refl)
        ] in
      elim (Bool-cases (flagged flags event_bus_off)) [
        | inl e ↦ rw e (
          record { tail_in = omega arith; count_in = omega arith; head_at = omega arith },
          taken.1,
          refl,
        )
        | inr e ↦ rw e taken
      ]
