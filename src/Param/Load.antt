-- ===== src/Param/Load.antt =====
-- Which record the loading functions of the parameter store return.
use hpm53m1_g6618motor.Base.{
  ℕ, zero, suc, ◌+◌, ◌*◌, ◌≤◌, ◌<◌, ◌≡◌, refl, ◌∙◌, sym, ap, subst, Bool, true, false, not, ◌||◌,
  Option, none, some, List, ltb, leb, ◌==◌, if◌then◌else◌, take, drop, arith, ◌⊎◌, inl, inr,
}
use hpm53m1_g6618motor.Flash.{FlashOps}
use hpm53m1_g6618motor.Param.{
  Store, slot_bytes, header_bytes_count, data_max, slot_length, holds_key, load_from, load,
  load_flex,
}

module _ (ops : FlashOps) (s : Store) (d : ops.Dev) (key : ℕ) where
  -- The slot holds a valid record of the key.
  abbrev pub HoldsKey : ℕ → List ℕ → Type 0
  HoldsKey i bs =
      (ops.read d (s.sector_addr + i * slot_bytes) slot_bytes ≡ some bs) × (holds_key key bs ≡ true)

  -- The data is that of the first slot, from `i` on and before `i + n`, that holds the key.
  pub record Found (n i : ℕ) (fits : ℕ → Bool) (data' : List ℕ) : Type 0 where
    pub at : ℕ
    pub content : List ℕ
    pub from_start : i ≤ at
    pub in_sector : at < i + n
    pub holds : HoldsKey at content
    pub fitting : fits (slot_length content) ≡ true
    pub same_data : data' ≡ take (slot_length content) (drop header_bytes_count content)
    pub first_one : (j : ℕ) (bs : List ℕ) → i ≤ j → j < at → HoldsKey j bs → ⊥

  Found-later :
      (n i : ℕ) (fits : ℕ → Bool) (data' : List ℕ) (o : Option (List ℕ))
      → ops.read d (s.sector_addr + i * slot_bytes) slot_bytes ≡ o
      → ((bs : List ℕ) → o ≡ some bs → holds_key key bs ≡ false)
      → Found n (i + 1) fits data'
      → Found (suc n) i fits data'
  Found-later n i fits data' o e other f = record {
    at = f.at;
    content = f.content;
    from_start = omega (arith, f.from_start);
    in_sector = omega (arith, f.in_sector);
    holds = f.holds;
    fitting = f.fitting;
    same_data = f.same_data;
    first_one = λ j bs l k h. elim (first_or_later i j l) [
      | inl z ↦ skipped j bs z h
      | inr g ↦ f.first_one j bs g k h
    ];
  }
    where
      first_or_later : (i j : ℕ) → i ≤ j → (i ≡ j) ⊎ (i + 1 ≤ j)
      first_or_later i j h = ground arith

      skipped : (j : ℕ) (bs : List ℕ) → i ≡ j → HoldsKey j bs → ⊥
      skipped j bs z (r, h) =
          let r' =
            subst (λ k. ops.read d (s.sector_addr + k * slot_bytes) slot_bytes ≡ some bs) (sym z)
              r in
          ground (arith, h, other bs (sym e ∙ r'))

  -- One round of the scan, on what the read and the tests of the slot answer.
  round-Found :
      (n i : ℕ) (fits : ℕ → Bool) (data' : List ℕ) (rest : Option (List ℕ)) (bs : List ℕ)
      (held fit : Bool)
      → ops.read d (s.sector_addr + i * slot_bytes) slot_bytes ≡ some bs
      → holds_key key bs ≡ held
      → fits (slot_length bs) ≡ fit
      → (rest ≡ some data' → Found n (i + 1) fits data')
      → (if held
          then (if fit then some (take (slot_length bs) (drop header_bytes_count bs)) else none)
          else rest)
        ≡ some data'
      → Found (suc n) i fits data'
  round-Found n i fits data' rest bs true true e k f ih h = record {
    at = i;
    content = bs;
    from_start = omega arith;
    in_sector = omega arith;
    holds = (e, k);
    fitting = f;
    same_data = Option-some-inj h;
    first_one = λ j bs l m h. absurd (omega (arith, l, m));
  }
    where
      Option-some-inj : {a : List ℕ} → some a ≡ some data' → data' ≡ a
      Option-some-inj {a = a} h = ap (λ o. elim o [ none ↦ a | some x ↦ x ]) (sym h)
  round-Found n i fits data' rest bs true false e k f ih h = ground arith
  round-Found n i fits data' rest bs false fit e k f ih h =
      Found-later n i fits data' (some bs) e
        (λ cs z. ap (λ o. elim o [ none ↦ false | some x ↦ holds_key key x ]) (sym z) ∙ k) (ih h)

  load_from-Found :
      (n i : ℕ) (fits : ℕ → Bool) (data' : List ℕ)
      → load_from ops n i s d key fits ≡ some data'
      → Found n i fits data'
  unfolding load_from
  load_from-Found zero i fits data' h = ground arith
  load_from-Found (suc n) i fits data' h =
      read_case (load_from-Found n (i + 1) fits data')
        (ops.read d (s.sector_addr + i * slot_bytes) slot_bytes) refl h
    where
      read_case :
          (load_from ops n (i + 1) s d key fits ≡ some data' → Found n (i + 1) fits data')
          → (o : Option (List ℕ)) → ops.read d (s.sector_addr + i * slot_bytes) slot_bytes ≡ o
          → let m : Option (List ℕ) = elim o [
            | none ↦ none
            | some bs ↦
                if holds_key key bs
                then (if fits (slot_length bs)
                    then some (take (slot_length bs) (drop header_bytes_count bs))
                    else none)
                else load_from ops n (i + 1) s d key fits
          ] in
            m ≡ some data' → Found (suc n) i fits data'
      read_case ih none e h = ground arith
      read_case ih (some bs) e h =
          round-Found n i fits data' (load_from ops n (i + 1) s d key fits) bs _ _ e refl refl ih h

  guards_passed :
      (ready : Bool) (n : ℕ) (o : Option (List ℕ)) (data' : List ℕ)
      → (if not ready || n == 0 || ltb data_max n then none else o) ≡ some data'
      → (ready ≡ true) × (1 ≤ n) × (o ≡ some data')
  guards_passed ready n o data' h = ground arith

  -- If `app_param_load` succeeds, the store is ready and the buffer holds the data of the first slot of
  -- the sector with a valid record of the key, and that record has the length that was asked for.
  pub load-Found :
      (len : ℕ) (data' : List ℕ)
      → load ops s d key len ≡ some data'
      → (s.ready ≡ true) × (1 ≤ len) × Found s.slot_count 0 (λ n. n == len) data'
  unfolding load
  load-Found len data' h =
      let (r, l, e) =
        guards_passed s.ready len (load_from ops s.slot_count 0 s d key (λ n. n == len)) data' h in
      (r, l, load_from-Found s.slot_count 0 (λ n. n == len) data' e)

  -- If `app_param_load_flex` succeeds, the store is ready and the buffer holds the data of the first
  -- slot of the sector with a valid record of the key, and that record is at most as long as the buffer.
  pub load_flex-Found :
      (cap : ℕ) (data' : List ℕ)
      → load_flex ops s d key cap ≡ some data'
      → (s.ready ≡ true) × (1 ≤ cap) × Found s.slot_count 0 (λ n. leb n cap) data'
  unfolding load_flex
  load_flex-Found cap data' h =
      let (r, l, e) =
        guards_passed s.ready cap (load_from ops s.slot_count 0 s d key (λ n. leb n cap)) data' h in
      (r, l, load_from-Found s.slot_count 0 (λ n. leb n cap) data' e)
