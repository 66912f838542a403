-- ===== src/Can/Service/Watchdog.antt =====
-- The communication watchdog: when it fires, and how often.
use hpm53m1_g6618motor.Base.{
  ℕ, suc, ◌+◌, ◌*◌, ◌≤◌, ◌<◌, ◌≡◌, ◌≢◌, ◌↔◌, Bool, true, false, List, [], ◌∷◌, arith, none, some,
  if◌then◌else◌, ◌==◌, leb, ◌&&◌,
}
use hpm53m1_g6618motor.Can.Protocol.{parse_id, type_clear}
use hpm53m1_g6618motor.Can.Service.{
  Service, policy_stop, u32, feed_watchdog, rx_isr_hook, elapsed, watchdog_step, suspend_watchdog,
}

-- The host is lost: the watchdog is armed, not suspended and has a timeout, and more cycles than the
-- timeout have passed since it was fed, for which it has not fired yet.
abbrev pub IsDue : ℕ → Service → Type 0
IsDue now s =
    (s.wd_armed ≡ true)
    × (s.wd_suspended ≡ false)
    × (s.timeout_ms ≢ 0)
    × (s.wd_fired ≡ false)
    × (u32 (s.timeout_ms * s.cycles_per_ms) < elapsed now s)

-- `can_watchdog_step` raises the fault exactly when the watchdog is armed, not suspended, has a
-- timeout, has not fired since it was last fed, and more cycles than the timeout have passed; then it
-- marks itself fired and changes nothing else, and otherwise it changes nothing. It asks for a
-- controlled stop exactly when it raises the fault, the actions are enabled and the policy of the
-- fault is STOP. At any later cycle count below 2^32 and with the same settings: a check that follows
-- one that raised the fault raises it no more, and a check at the count of a feed raises nothing.
pub watchdog_step_fires :
    (enabled : Bool) (policy now later : ℕ) (s : Service)
    → later < 4294967296
    → let (s', (raises, stops)) = watchdog_step enabled policy now s in
      ((raises ≡ true) ↔ IsDue now s)
      × (s' ≡ (if raises then record s { wd_fired = true } else s))
      × ((stops ≡ true) ↔ ((raises ≡ true) × (enabled ≡ true) × (policy ≡ policy_stop)))
      × ((raises && (watchdog_step enabled policy later s').1.0) ≡ false)
      × ((watchdog_step enabled policy later (feed_watchdog later s')).1.0 ≡ false)
unfolding watchdog_step feed_watchdog elapsed
watchdog_step_fires enabled policy now later s h = (
  (λ h. ground arith, λ h. ground arith),
  ground arith,
  (λ h. ground arith, λ h. ground arith),
  ground arith,
  ground arith,
)

-- The events that the watchdog sees, with the cycle counter at each; a check also reads whether the
-- actions are enabled and the policy of the fault.
pub data Event : Type 0 where
  tick : Bool → ℕ → ℕ → Event
  frame : ℕ → ℕ → Event
  feed : ℕ → Event
  suspend : Bool → Event

-- One event, and whether it raised the fault.
abbrev pub handle : Event → Service → Service × Bool
handle (tick enabled policy now) s =
    let (s', (raises, stops)) = watchdog_step enabled policy now s in (s', raises)
handle (frame now id) s = (rx_isr_hook now id s, false)
handle (feed now) s = (feed_watchdog now s, false)
handle (suspend b) s = (suspend_watchdog b s, false)

-- The number of faults raised by a sequence of events.
unfoldable pub raised : List Event → Service → ℕ
raised [] s = 0
raised (e ∷ es) s =
    let (s', fired) = handle e s in let rest = raised es s' in if fired then suc rest else rest

-- The events that feed the watchdog of a node: input from elsewhere, and its own control frames.
abbrev pub is_feed : ℕ → Event → ℕ
is_feed node (tick enabled policy now) = 0
is_feed node (frame now id) = elim (parse_id id) [
  | none ↦ 0
  | some (type, n) ↦ if n == node && leb type type_clear then 1 else 0
]
is_feed node (feed now) = 1
is_feed node (suspend b) = 0

abbrev pub feeds : ℕ → List Event → ℕ
feeds node [] = 0
feeds node (e ∷ es) = is_feed node e + feeds node es

-- A watchdog that has fired cannot fire until it is fed.
abbrev spare : Service → ℕ
spare s = if s.wd_fired then 0 else 1

handle-spare :
    (e : Event) (s : Service)
    → let (s', fired) = handle e s in
      ((if fired then 1 else 0) + spare s' ≤ spare s + is_feed s.node_id e)
      × (s'.node_id ≡ s.node_id)
unfolding watchdog_step rx_isr_hook feed_watchdog suspend_watchdog
handle-spare (tick enabled policy now) s = ground arith
handle-spare (frame now id) s = ground arith
handle-spare (feed now) s = ground arith
handle-spare (suspend b) s = ground arith

raised-le : (es : List Event) (s : Service) → raised es s ≤ spare s + feeds s.node_id es
unfolding raised
raised-le [] s = omega arith
raised-le (e ∷ es) s =
    let (s', fired) = handle e s in ground (arith, handle-spare e s, raised-le es s')

-- Over any interleaving of watchdog checks, received frames, other input and suspensions, the
-- watchdog raises its fault at most once more than it is fed: one loss of the host is one fault.
pub raised-le-feeds : (es : List Event) (s : Service) → raised es s ≤ 1 + feeds s.node_id es
raised-le-feeds es s = ground (arith, raised-le es s)
