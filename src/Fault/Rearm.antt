-- ===== src/Fault/Rearm.antt =====
-- How often the watchdog of a phase is re-armed.
use hpm53m1_g6618motor.Base.{
  ℕ, ◌+◌, ◌≤◌, ◌≡◌, refl, ◌∙◌, subst, ap, Bool, true, false, not, ◌&&◌, Option, some, List, [], ◌∷◌,
  if◌then◌else◌, ◌==◌, arith, inl, inr, Bool-cases, Option-cases,
}
use hpm53m1_g6618motor.Fault.{Fault, Analog, latch_code, raise, put}
use hpm53m1_g6618motor.Fault.Tick.{Sensors}
use hpm53m1_g6618motor.Fault.Wdog.{on_wdog, service_phase, wdog_service}

-- The second state counts `k` more re-armings of the phase under the same limits.
abbrev pub Rearms : ℕ → Fault → ℕ → Fault → Type 0
Rearms i s k t =
    (t.config ≡ s.config)
    × (t.wdog_rearm_cnt i ≡ s.wdog_rearm_cnt i + k)
    × ((t.wdog_rearm_cnt i ≤ s.config.rearm_max))

-- The counter of the phase is within its limit, which fits 16 bits.
abbrev pub IsLimited : ℕ → Fault → Type 0
IsLimited i s = (s.wdog_rearm_cnt i ≤ s.config.rearm_max) × (s.config.rearm_max ≤ 65535)

latch_code-wdog :
    (r : Option Analog) (b oc : ℕ) (s : Fault)
    → ((latch_code r b oc s).wdog_rearm_cnt ≡ s.wdog_rearm_cnt)
      × ((latch_code r b oc s).config ≡ s.config)
unfolding latch_code
latch_code-wdog r b oc s = elim (Option-cases s.first) [
  | inl e ↦ rw (e) (ground arith)
  | inr (f, e) ↦ rw (e) (ground arith)
]

raise-wdog :
    (r : Option Analog) (b oc : ℕ) (s : Fault)
    → ((raise r (some b) oc s).wdog_rearm_cnt ≡ s.wdog_rearm_cnt)
      × ((raise r (some b) oc s).config ≡ s.config)
unfolding raise
raise-wdog r b oc s =
    let t = record s { active = put s.active b true } in
    elim (Bool-cases (s.latched b)) [
      | inl e ↦ rw (e) (refl, refl)
      | inr e ↦ rw (e) (latch_code-wdog r b oc t)
    ]

-- The re-armings of the phase `i` by the round of the phase `j`.
abbrev pub rearmed : ℕ → ℕ → Bool → ℕ
rearmed i j r = if i == j && r then 1 else 0

service_phase-Rearms :
    (io : Sensors) (i j : ℕ) (s : Fault)
    → IsLimited i s
    → let m = service_phase io j s in Rearms i s (rearmed i j m.1) m.0
unfolding service_phase
service_phase-Rearms io i j s h =
    let locks = record s {
      wdog_locked = put s.wdog_locked j true;
      wdog_hit = put s.wdog_hit j false;
    } in
    let (e, f) = raise-wdog io.analog j 0 locks in ground (arith, h)

IsLimited-after : (i k : ℕ) (s t : Fault) → IsLimited i s → Rearms i s k t → IsLimited i t
IsLimited-after i k s t (l, m) (c, e, b) = (rw (c) b, rw (c) m)

Rearms-then : (i j k : ℕ) (s t u : Fault) → Rearms i s j t → Rearms i t k u → Rearms i s (j + k) u
Rearms-then i j k s t u (c, e, b) (d, f, g) =
    (d ∙ c, omega (arith, e, f), subst (λ m. u.wdog_rearm_cnt i ≤ m.rearm_max) c g)

on_wdog-Rearms :
    (io : Sensors) (i phase value : ℕ) (s : Fault)
    → IsLimited i s
    → Rearms i s 0 (on_wdog io phase value s)
unfolding on_wdog
on_wdog-Rearms io i phase value s h =
    let hits = record s {
      wdog_hit = put s.wdog_hit phase true;
      wdog_rearm_wait = put s.wdog_rearm_wait phase s.config.rearm_ticks;
    } in
    let (e, f) = raise-wdog io.analog phase value hits in ground (arith, h)

-- An interrupt of the ADC's watchdog, or a round of the service.
pub data Round : Type 0 where
  interrupt : Sensors → ℕ → ℕ → Round
  service : Sensors → Round

-- How often a list of re-armings has the phase `i`, the first of the list being the phase `j`.
unfoldable pub rearmings : ℕ → ℕ → List Bool → ℕ
rearmings i j [] = 0
rearmings i j (r ∷ rs) = rearmed i j r + rearmings i (j + 1) rs

-- How often the channel of a phase is re-armed in a history.
unfoldable pub rearmings_of : ℕ → List Round → Fault → ℕ
rearmings_of i [] s = 0
rearmings_of i (interrupt io phase value ∷ rounds) s =
    rearmings_of i rounds (on_wdog io phase value s)
rearmings_of i (service io ∷ rounds) s =
    let m = wdog_service io s in rearmings i 0 m.1 + rearmings_of i rounds m.0

nothing-Rearms : (i : ℕ) (s : Fault) → IsLimited i s → Rearms i s 0 s
nothing-Rearms i s (l, m) = (refl, omega arith, l)

either-Rearms :
    (i : ℕ) (s : Fault) (t u : Fault × List Bool) (c : Bool)
    → Rearms i s (rearmings i 0 t.1) t.0
    → Rearms i s (rearmings i 0 u.1) u.0
    → let m = if c then t else u in Rearms i s (rearmings i 0 m.1) m.0
either-Rearms i s t u true a b = a
either-Rearms i s t u false a b = b

wdog_service-Rearms :
    (io : Sensors) (i : ℕ) (s : Fault)
    → IsLimited i s
    → let m = wdog_service io s in Rearms i s (rearmings i 0 m.1) m.0
unfolding wdog_service rearmings
wdog_service-Rearms io i s h =
    let m₁ = service_phase io 0 s in
    let m₂ = service_phase io 1 m₁.0 in
    let m₃ = service_phase io 2 m₂.0 in
    let a = service_phase-Rearms io i 0 s h in
    let h₁ = IsLimited-after i _ s m₁.0 h a in
    let b = service_phase-Rearms io i 1 m₁.0 h₁ in
    let h₂ = IsLimited-after i _ m₁.0 m₂.0 h₁ b in
    let c = service_phase-Rearms io i 2 m₂.0 h₂ in
    let h₃ = IsLimited-after i _ m₂.0 m₃.0 h₂ c in
    either-Rearms i s (s, []) (m₃.0, m₁.1 ∷ m₂.1 ∷ m₃.1 ∷ []) (not s.ready) (nothing-Rearms i s h)
      (Rearms-then i _ _ s m₁.0 m₃.0 a (
        Rearms-then i _ _ m₁.0 m₂.0 m₃.0 b
          (Rearms-then i _ _ m₂.0 m₃.0 m₃.0 c (nothing-Rearms i m₃.0 h₃))))

-- As long as the faults are not cleared, the channel of a phase is re-armed at most `rearm_max` times,
-- less the times counted before, however interrupts and rounds of the service follow each other.
pub rearmings_of-le :
    (i : ℕ) (rounds : List Round) (s : Fault)
    → s.wdog_rearm_cnt i ≤ s.config.rearm_max
    → s.config.rearm_max ≤ 65535
    → s.wdog_rearm_cnt i + rearmings_of i rounds s ≤ s.config.rearm_max
unfolding rearmings_of
rearmings_of-le i [] s h m = omega arith
rearmings_of-le i (interrupt io phase value ∷ rounds) s h m =
    let t = on_wdog io phase value s in
    let a = on_wdog-Rearms io i phase value s (h, m) in
    let (l, k) = IsLimited-after i 0 s t (h, m) a in
    let b = rearmings_of-le i rounds t l k in omega (arith, a.1, ap (λ c. c.rearm_max) a.0, b)
rearmings_of-le i (service io ∷ rounds) s h m =
    let t = wdog_service io s in
    let a = wdog_service-Rearms io i s (h, m) in
    let (l, k) = IsLimited-after i _ s t.0 (h, m) a in
    let b = rearmings_of-le i rounds t.0 l k in omega (arith, a.1, ap (λ c. c.rearm_max) a.0, b)
