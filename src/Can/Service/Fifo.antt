-- ===== src/Can/Service/Fifo.antt =====
-- The receive queue of the CAN service is a first-in first-out queue of at most 31 frames.
use hpm53m1_g6618motor.Base.{
  ℕ, zero, suc, ◌+◌, ◌-◌, ◌%◌, ◌≤◌, ◌<◌, ◌≡◌, ◌≢◌, refl, ap, ◌∙◌, true, false, List, [], ◌∷◌, ◌++◌,
  arith, length, set, get_or, length-set, if◌then◌else◌, ltb, ◌==◌,
}
use mathlib.Core.Path.{ap₂}
use hpm53m1_g6618motor.Can.Service.{
  Item, empty_item, Service, queue_size, u32, overwrite, rx_callback, dequeue,
}

pub record IsQueue (s : Service) : Type 0 where
  pub storage : length s.rxq ≡ queue_size
  pub head_in : s.rx_head < queue_size
  pub tail_in : s.rx_tail < queue_size

-- The number of frames waiting.
abbrev pub waiting : Service → ℕ
waiting s = (s.rx_head + queue_size - s.rx_tail) % queue_size

-- `n` items from index `i` on, going round at the end of the array.
abbrev pub items : List Item → ℕ → ℕ → List Item
items q i zero = []
items q i (suc n) = get_or q i empty_item ∷ items q ((i + 1) % queue_size) n

-- The waiting frames, oldest first.
abbrev pub contents : Service → List Item
contents s = items s.rxq s.rx_tail (waiting s)

pub length-items : (q : List Item) (i n : ℕ) → length (items q i n) ≡ n
length-items q i zero = refl
length-items q i (suc n) = ap suc (length-items q ((i + 1) % queue_size) n)

get_or-set_other :
    (q : List Item) (i j : ℕ) (v : Item)
    → i ≢ j
    → get_or (set q i v) j empty_item ≡ get_or q j empty_item
get_or-set_other [] i j v h = refl
get_or-set_other (x ∷ q) zero zero v h = absurd (h refl)
get_or-set_other (x ∷ q) zero (suc j) v h = refl
get_or-set_other (x ∷ q) (suc i) zero v h = refl
get_or-set_other (x ∷ q) (suc i) (suc j) v h = get_or-set_other q i j v (λ e. h (ap suc e))

get_or-set_same :
    (q : List Item) (i : ℕ) (v : Item) → i < length q → get_or (set q i v) i empty_item ≡ v
get_or-set_same [] i v h = absurd (omega arith)
get_or-set_same (x ∷ q) zero v h = refl
get_or-set_same (x ∷ q) (suc i) v h = get_or-set_same q i v (omega arith)

-- A write at the free slot behind `n` items leaves them, and is the item after them.
items-set :
    (q : List Item) (i n h : ℕ) (v : Item)
    → length q ≡ queue_size
    → i < queue_size
    → n < queue_size
    → h ≡ (i + n) % queue_size
    → items (set q h v) i (suc n) ≡ items q i n ++ v ∷ []
items-set q i zero h v len hi hn e =
    let same : h ≡ i = omega arith in rw (same, get_or-set_same q i v (omega arith))
items-set q i (suc n) h v len hi hn e =
    ap₂ ◌∷◌ (get_or-set_other q h i v (λ c. absurd (omega arith)))
      (items-set q ((i + 1) % queue_size) n h v len (omega arith) (omega arith) (omega arith))

-- The item that `can_rx_callback` stores.
abbrev pub stored : ℕ → ℕ → List ℕ → Service → Item
stored id dlc bytes s =
    let len = if ltb 8 dlc then 8 else dlc in
    record {
      id = id;
      len = len;
      bytes = overwrite len bytes (get_or s.rxq s.rx_head empty_item).bytes;
    }

module _ (id dlc : ℕ) (bytes : List ℕ) (s : Service) (q : IsQueue s) where
  rx_callback-IsQueue : IsQueue (rx_callback id dlc bytes s)
  unfolding rx_callback
  rx_callback-IsQueue = ground (arith, length-set s.rxq s.rx_head (stored id dlc bytes s))

  rx_callback-room :
      waiting s < 31
      → contents (rx_callback id dlc bytes s) ≡ contents s ++ stored id dlc bytes s ∷ []
  unfolding rx_callback
  rx_callback-room room =
      let other : ((s.rx_head + 1) % queue_size == s.rx_tail) ≡ false = ground arith in
      let more : ((s.rx_head + 1) % queue_size + queue_size - s.rx_tail) % queue_size
          ≡ suc (waiting s) =
        omega arith in
      rw (other, more)
        (items-set s.rxq s.rx_tail (waiting s) s.rx_head (stored id dlc bytes s) q.storage q.tail_in
          (omega arith) (omega arith))

  rx_callback-full :
      waiting s ≡ 31
      → rx_callback id dlc bytes s
        ≡ record s { stats = record (s.stats) { rx_dropped = u32 (s.stats.rx_dropped + 1) } }
  unfolding rx_callback
  rx_callback-full h =
      let same : ((s.rx_head + 1) % queue_size == s.rx_tail) ≡ true = ground arith in rw same

-- `can_rx_callback` keeps the queue well formed. With fewer than 31 frames waiting it appends the frame
-- (its data cut to 8 bytes) behind them; with 31 it changes nothing but the count of dropped frames.
-- There are never more than 31.
pub rx_callback_appends :
    (id dlc : ℕ) (bytes : List ℕ) (s : Service)
    → IsQueue s
    → let s' = rx_callback id dlc bytes s in
      IsQueue s'
      × (waiting s ≤ 31)
      × (waiting s < 31 → contents s' ≡ contents s ++ stored id dlc bytes s ∷ [])
      × (waiting s ≡ 31
          → s'
            ≡ record s { stats = record (s.stats) { rx_dropped = u32 (s.stats.rx_dropped + 1) } })
rx_callback_appends id dlc bytes s q = (
  rx_callback-IsQueue id dlc bytes s q,
  omega arith,
  rx_callback-room id dlc bytes s q,
  rx_callback-full id dlc bytes s q,
)

items-suc :
    (q : List Item) (i n : ℕ)
    → n ≢ 0
    → items q i n ≡ get_or q i empty_item ∷ items q ((i + 1) % queue_size) (n - 1)
items-suc q i zero h = absurd (h refl)
items-suc q i (suc n) h =
    ap (λ k. get_or q i empty_item ∷ items q ((i + 1) % queue_size) k) (omega arith)

pub dequeue-IsQueue : (s : Service) → IsQueue s → IsQueue (dequeue s).1
unfolding dequeue
dequeue-IsQueue s q = omega arith

pub waiting-dequeue :
    (s : Service) → IsQueue s → s.rx_tail ≢ s.rx_head → suc (waiting (dequeue s).1) ≡ waiting s
unfolding dequeue
waiting-dequeue s q h = omega arith

-- While `s_rx_tail != s_rx_head`, taking an item yields the oldest waiting frame and leaves the others
-- in order; the queue is empty exactly when the two indices are equal.
pub dequeue_takes_oldest :
    (s : Service)
    → IsQueue s
    → (s.rx_tail ≢ s.rx_head → contents s ≡ (dequeue s).0 ∷ contents (dequeue s).1)
      × (s.rx_tail ≡ s.rx_head → contents s ≡ [])
      × IsQueue (dequeue s).1
unfolding dequeue
dequeue_takes_oldest s q = (
  λ h.
      let fewer : waiting s - 1
          ≡ (s.rx_head + queue_size - (s.rx_tail + 1) % queue_size) % queue_size =
        omega arith in
      items-suc s.rxq s.rx_tail (waiting s) (omega arith)
      ∙ ap (λ k. get_or s.rxq s.rx_tail empty_item ∷ items s.rxq ((s.rx_tail + 1) % queue_size) k)
          fewer,
  λ h. let none : waiting s ≡ 0 = omega arith in rw none,
  dequeue-IsQueue s q,
)
