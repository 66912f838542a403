-- ===== src/Fault/Advance.antt =====
-- What the protection operations keep: the policies, the latched codes, the first fault and the counts.
use hpm53m1_g6618motor.Base.{
  ℕ, zero, suc, ◌+◌, ◌≤◌, ◌≡◌, ◌≢◌, refl, sym, ◌∙◌, ap, subst, inl, inr, Bool, true, false, Option,
  none, some, ◌==◌, if◌then◌else◌, arith, Bool-cases, Option-cases,
}
use hpm53m1_g6618motor.Fault.{
  Fault, Analog, fault, warn, stop, put, saturate, raise, latch_code, eval_state, request_stop,
  inject_on, inject_off, get_action, action_of, highest,
}

-- Every latched code has been counted, and then a first fault is recorded.
abbrev pub IsCounted : Fault → Type 0
IsCounted s = (i : ℕ) → s.latched i ≡ true → (1 ≤ s.event_cnt i) × (s.first ≢ none)

-- Every action is WARN.
abbrev pub IsDisabled : Fault → Type 0
IsDisabled s = (i : ℕ) → s.policy i ≡ warn

-- Nothing of what the first state has recorded is lost in the second one.
pub record Advances (s t : Fault) : Type 0 where
  pub same_policy : (i : ℕ) → t.policy i ≡ s.policy i
  pub same_mask : (i : ℕ) → t.action_mask i ≡ s.action_mask i
  pub keeps_latched : (i : ℕ) → s.latched i ≡ true → t.latched i ≡ true
  pub keeps_first : (f : ℕ) → s.first ≡ some f → t.first ≡ some f
  pub no_fault : IsDisabled s → t.state ≡ fault → s.state ≡ fault
  pub no_stop : IsDisabled s → s.stop_request ≡ none → t.stop_request ≡ none
  pub counted : IsCounted s → IsCounted t

pub stays : (s : Fault) → Advances s s
stays s = record {
  same_policy = λ i. refl;
  same_mask = λ i. refl;
  keeps_latched = λ i h. h;
  keeps_first = λ f h. h;
  no_fault = λ d h. h;
  no_stop = λ d h. h;
  counted = λ c. c;
}

pub then-Advances : (s t u : Fault) → Advances s t → Advances t u → Advances s u
then-Advances s t u a b = record {
  same_policy = λ i. b.same_policy i ∙ a.same_policy i;
  same_mask = λ i. b.same_mask i ∙ a.same_mask i;
  keeps_latched = λ i h. b.keeps_latched i (a.keeps_latched i h);
  keeps_first = λ f h. b.keeps_first f (a.keeps_first f h);
  no_fault = λ d h. a.no_fault d (b.no_fault (λ i. a.same_policy i ∙ d i) h);
  no_stop = λ d h. b.no_stop (λ i. a.same_policy i ∙ d i) (a.no_stop d h);
  counted = λ c. b.counted (a.counted c);
}

-- A state whose records are those of another one.
pub untouched :
    (s t : Fault)
    → t.policy ≡ s.policy
    → t.action_mask ≡ s.action_mask
    → t.latched ≡ s.latched
    → t.first ≡ s.first
    → t.event_cnt ≡ s.event_cnt
    → t.state ≡ s.state
    → (IsDisabled s → s.stop_request ≡ none → t.stop_request ≡ none)
    → Advances s t
untouched s t p m l f e st stop = record {
  same_policy = λ i. ap (λ x. x i) p;
  same_mask = λ i. ap (λ x. x i) m;
  keeps_latched = λ i h. ap (λ m. m i) l ∙ h;
  keeps_first = λ g h. f ∙ h;
  no_fault = λ d h. sym st ∙ h;
  no_stop = stop;
  counted = λ c i h.
      let (n, k) = c i (ap (λ m. m i) (sym l) ∙ h) in
      (subst (λ m. 1 ≤ m i) (sym e) n, λ z. k (sym f ∙ z));
}

latched-latch_code :
    (r : Option Analog) (b oc : ℕ) (s : Fault) (i : ℕ)
    → ((latch_code r b oc s).latched i ≡ put s.latched b true i)
      × ((latch_code r b oc s).event_cnt i ≡ put s.event_cnt b (saturate (s.event_cnt b)) i)
unfolding latch_code
latched-latch_code r b oc s i = elim (Option-cases s.first) [
  | inl e ↦ rw (e) (ground arith)
  | inr (f, e) ↦ rw (e) (ground arith)
]

first-latch_code : (r : Option Analog) (b oc : ℕ) (s : Fault) → (latch_code r b oc s).first ≢ none
unfolding latch_code
first-latch_code r b oc s = elim (Option-cases s.first) [
  | inl e ↦ rw (e) (ground arith)
  | inr (f, e) ↦ rw (e) (ground arith)
]

pub latch_code-Advances :
    (r : Option Analog) (b oc : ℕ) (s : Fault) → Advances s (latch_code r b oc s)
unfolding latch_code
latch_code-Advances r b oc s = record {
  same_policy = λ i. elim (Option-cases s.first) [
    | inl e ↦ rw (e) (ground arith)
    | inr (f, e) ↦ rw (e) (ground arith)
  ];
  same_mask = λ i. elim (Option-cases s.first) [
    | inl e ↦ rw (e) (ground arith)
    | inr (f, e) ↦ rw (e) (ground arith)
  ];
  keeps_latched = λ i h. elim (Option-cases s.first) [
    | inl e ↦ rw (e) (ground arith)
    | inr (f, e) ↦ rw (e) (ground arith)
  ];
  keeps_first = λ f h. rw (h) (ground arith);
  no_fault = λ d. elim (Option-cases s.first) [
    | inl e ↦ rw (e, d b) (λ h. h)
    | inr (f, e) ↦ rw (e, d b) (λ h. h)
  ];
  no_stop =
      λ d h. elim (Option-cases s.first) [ inl e ↦ rw (e, d b) h | inr (f, e) ↦ rw (e, d b) h ];
  counted =
      λ c i h. (ground (arith, c i, latched-latch_code r b oc s i), first-latch_code r b oc s);
}

pub raise-Advances : (r : Option Analog) (b oc : ℕ) (s : Fault) → Advances s (raise r (some b) oc s)
unfolding raise
raise-Advances r b oc s =
    let t = record s { active = put s.active b true } in
    elim (Bool-cases (s.latched b)) [
      | inl e ↦ rw (e) (untouched s t refl refl refl refl refl refl (λ d h. h))
      | inr e ↦ rw (e) (
          then-Advances s t _ (untouched s t refl refl refl refl refl refl (λ d h. h))
            (latch_code-Advances r b oc t))
    ]

-- A choice advances if both of its results do.
pub either-Advances :
    (s t u : Fault) (c : Bool) → Advances s t → Advances s u → Advances s (if c then t else u)
either-Advances s t u true a b = a
either-Advances s t u false a b = b

pub option-Advances :
    (s t : Fault) (f : ℕ → Fault) (o : Option ℕ)
    → (o ≡ none → Advances s t)
    → ((x : ℕ) → Advances s (f x))
    → Advances s (elim o [ none ↦ t | some x ↦ f x ])
option-Advances s t f none a b = a refl
option-Advances s t f (some x) a b = b x

pub refresh-Advances : (r : Option Analog) (oc : ℕ) (s : Fault) → Advances s (raise r none oc s)
unfolding raise
refresh-Advances r oc s =
    option-Advances s _ (λ f. s) s.first
      (λ e. untouched s _ refl refl refl refl refl refl (λ d h. h)) (λ f. stays s)

highest_of_warn : (n i : ℕ) (f : ℕ → ℕ) → ((j : ℕ) → f j ≡ warn) → highest n i f warn ≡ warn
unfolding highest
highest_of_warn zero i f h = refl
highest_of_warn (suc n) i f h = rw (h i) (highest_of_warn n (i + 1) f h)

action_of_disabled : (s : Fault) → IsDisabled s → (i : ℕ) → action_of s i ≡ warn
unfolding action_of
action_of_disabled s d i = ground (arith, d i)

pub get_action_disabled : (s : Fault) → IsDisabled s → get_action s ≡ warn
unfolding get_action
get_action_disabled s d = highest_of_warn 12 0 (action_of s) (action_of_disabled s d)

pub eval_state-Advances : (pending : Bool) (s : Fault) → Advances s (eval_state pending s)
unfolding eval_state
eval_state-Advances pending s = record {
  same_policy = λ i. refl;
  same_mask = λ i. refl;
  keeps_latched = λ i h. h;
  keeps_first = λ f h. h;
  no_fault = λ d h. ground (arith, get_action_disabled s d);
  no_stop = λ d h. h;
  counted = λ c. c;
}

pub request_stop-Advances : (b : ℕ) (s : Fault) → Advances s (request_stop b s)
unfolding request_stop
request_stop-Advances b s =
    option-Advances s _ (λ f. s) s.stop_request
      (λ e. elim (Bool-cases (get_action s == stop)) [
        | inl a ↦ rw a (
            untouched s _ refl refl refl refl refl refl
              (λ d h. ground (arith, a, get_action_disabled s d)))
        | inr a ↦ rw a (stays s)
      ])
      (λ f. stays s)

pub inject_off-Advances : (b : ℕ) (s : Fault) → Advances s (inject_off b s)
unfolding inject_off
inject_off-Advances b s =
    option-Advances s _ _ s.stop_request
      (λ e. untouched s _ refl refl refl refl refl refl (λ d h. h))
      (λ r.
        either-Advances s _ _ (r == b) (untouched s _ refl refl refl refl refl refl (λ d h. refl))
          (untouched s _ refl refl refl refl refl refl (λ d h. h)))

-- The first fault may be recorded where there is none.
records_first :
    (s t : Fault) (b : ℕ)
    → s.first ≡ none
    → t.first ≡ some b
    → t.policy ≡ s.policy
    → t.action_mask ≡ s.action_mask
    → t.latched ≡ s.latched
    → t.event_cnt ≡ s.event_cnt
    → t.state ≡ s.state
    → (IsDisabled s → s.stop_request ≡ none → t.stop_request ≡ none)
    → Advances s t
records_first s t b n f p m l e st stop = record {
  same_policy = λ i. ap (λ x. x i) p;
  same_mask = λ i. ap (λ x. x i) m;
  keeps_latched = λ i h. ap (λ m. m i) l ∙ h;
  keeps_first = λ g h. ground (arith, n, h);
  no_fault = λ d h. sym st ∙ h;
  no_stop = stop;
  counted = λ c i h.
      let (k, z) = c i (ap (λ m. m i) (sym l) ∙ h) in
      (subst (λ m. 1 ≤ m i) (sym e) k, λ y. ground (arith, f, y));
}

pub inject_on-Advances : (r : Option Analog) (b : ℕ) (s : Fault) → Advances s (inject_on r b s)
unfolding inject_on
inject_on-Advances r b s =
    then-Advances s _ _
      (option-Advances s _ _ s.first
        (λ e. records_first s _ b e refl refl refl refl refl refl (λ d h. h))
        (λ f. untouched s _ refl refl refl refl refl refl (λ d h. h)))
      (request_stop-Advances b _)
