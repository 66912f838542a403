-- ===== src/Param/Scan.antt =====
-- The scans of the parameter store over its slots: which slot a store takes, and what a load finds
-- (app_param.c).
use hpm53m1_g6618motor.Base.{
  ℕ, zero, suc, ◌+◌, ◌*◌, ◌≤◌, ◌<◌, ◌≡◌, refl, ◌∙◌, sym, ap, ◌⊎◌, inl, inr, Bool, true, false, not,
  Option, none, some, List, if◌then◌else◌, take, drop, arith, Bool-cases,
}
use hpm53m1_g6618motor.Flash.{FlashOps}
use hpm53m1_g6618motor.Param.{
  Store, slot_bytes, header_bytes_count, slot_length, slot_of, param_slot_valid, holds_key,
  find_slot, target_slot, load_from,
}

-- The slot is the first one, from `i` on, that passes the test.
pub record First (test : List ℕ → Bool) (sector : List ℕ) (n i t : ℕ) : Type 0 where
  pub from_start : i ≤ t
  pub in_sector : t < i + n
  pub passes : test (slot_of sector t) ≡ true
  pub first_one : (j : ℕ) → i ≤ j → j < t → test (slot_of sector j) ≡ false

first_or_later : (i j : ℕ) → i ≤ j → (i ≡ j) ⊎ (i + 1 ≤ j)
first_or_later i j h = ground arith

module _ (test : List ℕ → Bool) (sector : List ℕ) where
  -- A test that fails at `i` and at all later ones fails from `i` on.
  fails_from :
      (i m : ℕ)
      → test (slot_of sector i) ≡ false
      → ((j : ℕ) → i + 1 ≤ j → j < m → test (slot_of sector j) ≡ false)
      → (j : ℕ) → i ≤ j
      → j < m
      → test (slot_of sector j) ≡ false
  fails_from i m e h j l k = elim (first_or_later i j l) [
    | inl z ↦ ap (λ x. test (slot_of sector x)) (sym z) ∙ e
    | inr g ↦ h j g k
  ]

  pub find_slot-First : (n i t : ℕ) → find_slot n i test sector ≡ some t → First test sector n i t
  unfolding find_slot
  find_slot-First zero i t h = ground arith
  find_slot-First (suc n) i t h = elim (Bool-cases (test (slot_of sector i))) [
    | inl e ↦
        let z : i ≡ t = ground (arith, e) in
        record {
          from_start = omega (arith, z);
          in_sector = omega (arith, z);
          passes = ap (λ x. test (slot_of sector x)) (sym z) ∙ e;
          first_one = λ j l k. absurd (omega (arith, l, k, z));
        }
    | inr e ↦
        let f = find_slot-First n (i + 1) t (ground (arith, e)) in
        record {
          from_start = omega (arith, f.from_start);
          in_sector = omega (arith, f.in_sector);
          passes = f.passes;
          first_one = fails_from i t e f.first_one;
        }
  ]

  pub find_slot-none :
      (n i : ℕ)
      → find_slot n i test sector ≡ none
      → (j : ℕ) → i ≤ j
      → j < i + n
      → test (slot_of sector j) ≡ false
  unfolding find_slot
  find_slot-none zero i h = λ j l k. absurd (omega (arith, l, k))
  find_slot-none (suc n) i h = elim (Bool-cases (test (slot_of sector i))) [
    | inl e ↦ absurd (ground (arith, e))
    | inr e ↦
        fails_from i (i + suc n) e
          (λ j l k. find_slot-none n (i + 1) (ground (arith, e)) j l (omega (arith, k)))
  ]

-- The slot that a store of the key takes.
pub record Target (count key : ℕ) (sector : List ℕ) (t : ℕ) : Type 0 where
  pub in_sector : t < count
  pub key_or_free :
      (holds_key key (slot_of sector t) ≡ true) ⊎ (param_slot_valid (slot_of sector t) ≡ false)
  pub first_one : (j : ℕ) → j < t → holds_key key (slot_of sector j) ≡ false

pub target_slot-Target :
    (count key : ℕ) (sector : List ℕ) (t : ℕ)
    → target_slot count key sector ≡ some t
    → Target count key sector t
unfolding target_slot
target_slot-Target count key sector t h =
    search_case (find_slot count 0 (holds_key key) sector) refl h
  where
    search_case :
        (o : Option ℕ)
        → find_slot count 0 (holds_key key) sector ≡ o
        → let m : Option ℕ = elim o [
          | some i ↦ some i
          | none ↦ find_slot count 0 (λ bs. not (param_slot_valid bs)) sector
        ] in
          m ≡ some t → Target count key sector t
    search_case (some u) e h =
        let f = find_slot-First (holds_key key) sector count 0 t (e ∙ h) in
        record {
          in_sector = omega (arith, f.in_sector);
          key_or_free = inl f.passes;
          first_one = λ j k. f.first_one j (omega arith) k;
        }
    search_case none e h =
        let f = find_slot-First (λ bs. not (param_slot_valid bs)) sector count 0 t h in
        let free = f.passes in
        record {
          in_sector = omega (arith, f.in_sector);
          key_or_free = inr (ground (arith, free));
          first_one = λ j k.
              find_slot-none (holds_key key) sector count 0 e j (omega arith)
                (omega (arith, k, f.in_sector));
        }

module _ (ops : FlashOps) (s : Store) where
  -- The slots read as these.
  abbrev pub Reads : ops.Dev → ℕ → ℕ → (ℕ → List ℕ) → Type 0
  Reads d n i content =
      (j : ℕ)
      → i ≤ j
      → j < i + n
      → ops.read d (s.sector_addr + j * slot_bytes) slot_bytes ≡ some (content j)

  -- One round of a load, on the slot that it reads.
  load_from-round :
      (n i key : ℕ) (fits : ℕ → Bool) (d : ops.Dev) (bs : List ℕ)
      → ops.read d (s.sector_addr + i * slot_bytes) slot_bytes ≡ some bs
      → load_from ops (suc n) i s d key fits ≡ (
          if holds_key key bs
          then (if fits (slot_length bs)
              then some (take (slot_length bs) (drop header_bytes_count bs))
              else none)
          else load_from ops n (i + 1) s d key fits)
  unfolding load_from
  load_from-round n i key fits d bs e = rw (e, load_from) refl

  -- Where the same slots hold the key, with the same content, a load finds the same.
  pub load_from-same :
      (n i key : ℕ) (fits : ℕ → Bool) (d d' : ops.Dev) (content content' : ℕ → List ℕ)
      → Reads d n i content
      → Reads d' n i content'
      → ((j : ℕ)
          → (holds_key key (content' j) ≡ holds_key key (content j))
            × (holds_key key (content j) ≡ true → content' j ≡ content j))
      → load_from ops n i s d' key fits ≡ load_from ops n i s d key fits
  load_from-same zero i key fits d d' c c' r r' same = unfold load_from in refl
  load_from-same (suc n) i key fits d d' c c' r r' same =
      let a = load_from-round n i key fits d (c i) (r i (omega arith) (omega arith)) in
      let a' = load_from-round n i key fits d' (c' i) (r' i (omega arith) (omega arith)) in
      let (held, kept) = same i in
      let rest =
        load_from-same n (i + 1) key fits d d' c c' (λ j l k. r j (omega arith) (omega arith))
          (λ j l k. r' j (omega arith) (omega arith)) same in
      elim (Bool-cases (holds_key key (c i))) [
        | inl e ↦ rw (a, a', held, e, kept e) refl
        | inr e ↦ rw (a, a', held, e) rest
      ]

  -- A load finds the record of the first slot that holds the key.
  pub load_from-first :
      (n i key : ℕ) (fits : ℕ → Bool) (d : ops.Dev) (content : ℕ → List ℕ) (t : ℕ)
      → Reads d n i content
      → i ≤ t
      → t < i + n
      → holds_key key (content t) ≡ true
      → ((j : ℕ) → j < t → holds_key key (content j) ≡ false)
      → fits (slot_length (content t)) ≡ true
      → load_from ops n i s d key fits
        ≡ some (take (slot_length (content t)) (drop header_bytes_count (content t)))
  load_from-first zero i key fits d c t r l k holds before fit = absurd (omega (arith, l, k))
  load_from-first (suc n) i key fits d c t r l k holds before fit =
      let a = load_from-round n i key fits d (c i) (r i (omega arith) (omega arith)) in
      elim (first_or_later i t l) [
        | inl z ↦ rw a (rw z (rw (holds, fit) refl))
        | inr g ↦
            rw (a, before i (omega arith))
              (load_from-first n (i + 1) key fits d c t (λ j l k. r j (omega arith) (omega arith)) g
                (omega (arith, k)) holds before fit)
      ]

  -- A load finds nothing where no slot holds the key.
  pub load_from-none :
      (n i key : ℕ) (fits : ℕ → Bool) (d : ops.Dev) (content : ℕ → List ℕ)
      → Reads d n i content
      → ((j : ℕ) → i ≤ j → j < i + n → holds_key key (content j) ≡ false)
      → load_from ops n i s d key fits ≡ none
  load_from-none zero i key fits d c r absent = unfold load_from in refl
  load_from-none (suc n) i key fits d c r absent =
      rw
        (
          load_from-round n i key fits d (c i) (r i (omega arith) (omega arith)),
          absent i (omega arith) (omega arith),
        )
        (load_from-none n (i + 1) key fits d c (λ j l k. r j (omega arith) (omega arith))
          (λ j l k. absent j (omega arith) (omega arith)))
