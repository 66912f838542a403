-- ===== src/Can/Service/Process/Order.antt =====
-- A step of the CAN service as a pass over the oldest waiting frames.
use hpm53m1_g6618motor.Base.{
  ℕ, zero, suc, ◌+◌, ◌≡◌, refl, ap, ◌∙◌, Bool, true, false, List, [], ◌∷◌, arith, inl, inr, take,
  drop, length, ◌==◌, ==_iff, Bool-cases, if◌then◌else◌,
}
use hpm53m1_g6618motor.Float.{FloatOps}
use hpm53m1_g6618motor.Can.Protocol.{Frame, Rc, success, foreign, invalid, default_scale, decode}
use hpm53m1_g6618motor.Can.Policy.{
  Action, act_drop, act_release_output, act_enable, act_disable, act_clear, act_mit, act_position,
  act_velocity, act_force_pos, motion_none, plan,
}
use hpm53m1_g6618motor.Can.Service.{Item, Service, Stats, u32, rx_budget, dequeue}
use hpm53m1_g6618motor.Can.Service.Fifo.{IsQueue, contents, dequeue_takes_oldest, dequeue-IsQueue}
use hpm53m1_g6618motor.Can.Service.Execute.{CanEnv}
use hpm53m1_g6618motor.Can.Service.Process.{
  carry_out, respond, handle_item, process_from, process_rx,
}

-- The frames that a step has counted, whatever the decoder said of them.
abbrev pub seen : Stats → ℕ
seen st = u32 (st.rx_frames + st.bad_frames + st.foreign_frames)

module _ (fl : FloatOps) (env : CanEnv) where
  open env use {World}

  -- Handling a list of frames, in order.
  pub handle_all : List Item → ℕ → Bool → Stats → World → Stats × World
  handle_all [] node mit_enabled st w = (st, w)
  handle_all (i ∷ is) node mit_enabled st w =
      let (st', w') = handle_item fl env i node mit_enabled st w in
      handle_all is node mit_enabled st' w'

module _ (fl : FloatOps) (env : CanEnv) where
  open env use {World}

  abbrev Handles : ℕ → Bool → Service → World → Service × World → Type 0
  Handles n mit_enabled s w out =
      (contents out.0 ≡ drop n (contents s))
      × ((out.0.stats, out.1)
          ≡ handle_all fl env (take n (contents s)) s.node_id mit_enabled s.stats w)
      × IsQueue out.0
      × (out.0.node_id ≡ s.node_id)

  -- The state and the world after one round.
  abbrev round : Bool → Service → World → Service × World
  round me s w =
      let (item, s') = dequeue s in
      let (st, w') = handle_item fl env item s'.node_id me s'.stats w in
      (record s' { stats = st }, w')

  round-IsQueue : (me : Bool) (s : Service) (w : World) → IsQueue s → IsQueue (round me s w).0
  round-IsQueue me s w q =
      let k = dequeue-IsQueue s q in
      record { storage = k.storage; head_in = k.head_in; tail_in = k.tail_in }

  process_stop :
      (n : ℕ) (me : Bool) (s : Service) (w : World)
      → (s.rx_tail == s.rx_head) ≡ true
      → process_from fl env (suc n) me s w ≡ (s, w)
  unfolding process_from
  process_stop n me s w e = rw (e, process_from)

  process_go :
      (n : ℕ) (me : Bool) (s : Service) (w : World)
      → (s.rx_tail == s.rx_head) ≡ false
      → process_from fl env (suc n) me s w
        ≡ process_from fl env n me (round me s w).0 (round me s w).1
  unfolding process_from
  process_go n me s w e = rw (e, process_from)

  process_from-Handles :
      (n : ℕ) (mit_enabled : Bool) (s : Service) (w : World)
      → IsQueue s
      → Handles n mit_enabled s w (process_from fl env n mit_enabled s w)
  unfolding process_from handle_all dequeue
  process_from-Handles zero me s w q = (refl, refl, q, refl)
  process_from-Handles (suc n) me s w q = elim (Bool-cases (s.rx_tail == s.rx_head)) [
    | inl e ↦
        let empty = (dequeue_takes_oldest s q).1 ((==_iff s.rx_tail s.rx_head).0 e) in
        rw (process_stop n me s w e) (rw empty (refl, refl, q, refl))
    | inr e ↦
        let first = (dequeue_takes_oldest s q).0 (λ h. cc (e, (==_iff s.rx_tail s.rx_head).1 h)) in
        let s' = (round me s w).0 in
        let w' = (round me s w).1 in
        let rest = process_from-Handles n me s' w' (round-IsQueue me s w q) in
        rw (process_go n me s w e) (rw first rest)
  ]

  carry_out-seen :
      (a : Action) (f : Frame) (st : Stats) (w : World)
      → let st' = (carry_out fl env a f st w).0 in
        (st'.rx_frames ≡ st.rx_frames)
        × (st'.bad_frames ≡ st.bad_frames)
        × (st'.foreign_frames ≡ st.foreign_frames)
  unfolding carry_out
  carry_out-seen act_release_output f st w = (refl, refl, refl)
  carry_out-seen act_drop f st w = (refl, refl, refl)
  carry_out-seen act_enable f st w = (refl, refl, refl)
  carry_out-seen act_disable f st w = (refl, refl, refl)
  carry_out-seen act_clear f st w = (refl, refl, refl)
  carry_out-seen act_mit f st w = (refl, refl, refl)
  carry_out-seen act_position f st w = (refl, refl, refl)
  carry_out-seen act_velocity f st w = (refl, refl, refl)
  carry_out-seen act_force_pos f st w = (refl, refl, refl)

  respond-seen :
      (f : Frame) (node : ℕ) (me : Bool) (st : Stats) (w : World)
      → seen (respond fl env f node me st w).0 ≡ seen st
  unfolding respond
  respond-seen f node me st w =
      let snap = env.snapshot w in
      let a =
        plan f.kind (if snap.active then snap.mode else motion_none) snap.active (env.foc_state w)
          me in
      omega (arith, carry_out-seen a f st w)

  handle_item-seen :
      (i : Item) (node : ℕ) (me : Bool) (st : Stats) (w : World)
      → seen (handle_item fl env i node me st w).0 ≡ u32 (seen st + 1)
  unfolding handle_item
  handle_item-seen i node me st w = by_rc (decode fl i.id i.bytes i.len node default_scale) refl
    where
      by_rc :
          (r : Rc × Frame)
          → decode fl i.id i.bytes i.len node default_scale ≡ r
          → seen (handle_item fl env i node me st w).0 ≡ u32 (seen st + 1)
      by_rc (invalid, f) e = rw (e, handle_item) (omega arith)
      by_rc (foreign, f) e = rw (e, handle_item) (omega arith)
      by_rc (success, f) e =
          rw (e, handle_item)
            (omega (
              arith,
              respond-seen (decode fl i.id i.bytes i.len node default_scale).1 node me
                  (record st { rx_frames = u32 (st.rx_frames + 1) }) w,
            ))

  handle_all-seen :
      (is : List Item) (node : ℕ) (me : Bool) (st : Stats) (w : World)
      → seen (handle_all fl env is node me st w).0 ≡ u32 (seen st + length is)
  unfolding handle_all
  handle_all-seen [] node me st w = omega arith
  handle_all-seen (i ∷ is) node me st w =
      let (st', w') = handle_item fl env i node me st w in
      omega (arith, handle_item-seen i node me st w, handle_all-seen is node me st' w')

  -- A step of the service on a well-formed queue handles the eight oldest waiting frames, or all if
  -- there are fewer, in the order of their arrival, leaves the others waiting in order, and counts each
  -- frame that it handled exactly once, as accepted, bad or foreign (counters modulo 2^32).
  pub process_rx_in_order :
      (s : Service) (w : World)
      → IsQueue s
      → let (s', w') = process_rx fl env s w in
        (contents s' ≡ drop rx_budget (contents s))
        × ((s'.stats, w')
            ≡ handle_all fl env
                (take rx_budget (contents s))
                s.node_id
                (env.params w).mit_enable
                s.stats
                w)
        × (seen s'.stats ≡ u32 (seen s.stats + length (take rx_budget (contents s))))
        × IsQueue s'
  unfolding process_rx
  process_rx_in_order s w q =
      let h = process_from-Handles rx_budget (env.params w).mit_enable s w q in
      let same = ap (λ (p : Stats × World). seen p.0) h.1 in
      (
        h.0,
        h.1,
        same
            ∙ handle_all-seen (take rx_budget (contents s)) s.node_id (env.params w).mit_enable
                s.stats w,
        h.2,
      )
