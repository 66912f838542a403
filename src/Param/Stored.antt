-- ===== src/Param/Stored.antt =====
-- Storing a value and loading it again (app_param.c, `app_param_store` and `app_param_load_flex`).
use hpm53m1_g6618motor.Base.{
  ℕ, ◌+◌, ◌*◌, ◌≤◌, ◌<◌, ◌≡◌, ◌≢◌, refl, ◌∙◌, sym, ap, inl, inr, Bool, true, false, not, ◌||◌,
  Option, none, some, List, ltb, leb, ◌==◌, if◌then◌else◌, length, take, drop, arith, Bool-cases,
  Option-cases, IsBytes, byte_at-IsBytes, same_bytes,
}
use hpm53m1_g6618motor.Flash.{FlashOps, FlashLaws}
use hpm53m1_g6618motor.Param.{
  Store, slot_bytes, data_max, header_bytes_count, slot_length, slot_of, new_slot, holds_key,
  target_slot, rewrite, store, load_flex,
}
use hpm53m1_g6618motor.Param.Slot.{
  length-new_slot, new_slot-IsBytes, holds_key-new_slot, slot_key-new_slot, slot_length-new_slot,
  slot_data-new_slot,
}
use hpm53m1_g6618motor.Param.Rewrite.{written_slot, AreSlots}
use hpm53m1_g6618motor.Param.Place.{
  ReadsParts, IsPlaced, invalid-holds_key, holds_key-slot_key, other_key-holds_key,
  written_slot-holds_key, rewrite-Reads, sector_read-Reads, slot_of-IsSlot,
}
use hpm53m1_g6618motor.Param.Scan.{
  Target, target_slot-Target, Reads, load_from-same, load_from-first,
}

module _ (ops : FlashOps) where
  -- What a successful store went through.
  record StoreSteps (s : Store) (d : ops.Dev) (key : ℕ) (buf : List ℕ) : Type 0 where
    ready : s.ready ≡ true
    some_data : 1 ≤ length buf
    small : length buf ≤ data_max
    sector : List ℕ
    target : ℕ
    sector_read : ops.read d s.sector_addr (s.slot_count * slot_bytes) ≡ some sector
    searched : target_slot s.slot_count key sector ≡ some target
    rewritten :
        let slots = λ (i : ℕ). some (if i == target then new_slot key buf else slot_of sector i) in
        store ops s d key buf
        ≡ rewrite ops target slots
            (λ bs. same_bytes bs (new_slot key buf))
            (record s { stage = 2; slot = 4294967295; error = 0 })
            d

  store_steps :
      (s : Store) (d : ops.Dev) (key : ℕ) (buf : List ℕ)
      → (store ops s d key buf).0 ≡ true
      → StoreSteps s d key buf
  unfolding store
  store_steps s d key buf ok =
      let bad = not s.ready || length buf == 0 || ltb data_max (length buf) in
      elim (Bool-cases bad) [
        | inl b ↦ absurd (cc (rw b at ok))
        | inr g ↦ elim (Option-cases (ops.read d s.sector_addr (s.slot_count * slot_bytes))) [
          | inl e ↦ absurd (cc (rw (g, e, store) at ok))
          | inr (sector, e) ↦ elim (Option-cases (target_slot s.slot_count key sector)) [
            | inl t ↦ absurd (cc (rw (g, e, t, store) at ok))
            | inr (target, t) ↦ record {
              ready = ground (arith, g);
              some_data = ground (arith, g);
              small = ground (arith, g);
              sector = sector;
              target = target;
              sector_read = e;
              searched = t;
              rewritten = rw (g, e, t, store) refl;
            }
          ]
        ]
      ]

module _ (ops : FlashOps) (laws : FlashLaws ops) (parts : ReadsParts ops) (s : Store) where
  -- The slots of the sector with the new one among them.
  abbrev with_new : ℕ → List ℕ → List ℕ → ℕ → List ℕ
  with_new target new sector i = if i == target then new else slot_of sector i

  with_new-AreSlots :
      (d : ops.Dev) (sector : List ℕ) (target key : ℕ) (buf : List ℕ)
      → ops.read d s.sector_addr (s.slot_count * slot_bytes) ≡ some sector
      → length buf ≤ data_max
      → IsBytes buf
      → AreSlots s.slot_count (λ i. some (with_new target (new_slot key buf) sector i))
  with_new-AreSlots d sector target key buf e small bytes j bs k z =
      elim (Bool-cases (j == target)) [
        | inl h ↦
            let w : new_slot key buf ≡ bs = ground (arith, z, h) in
            rw⁻¹ w (
              length-new_slot key buf small,
              λ b. byte_at-IsBytes (new_slot key buf) b (new_slot-IsBytes key buf bytes),
            )
        | inr h ↦
            let w : slot_of sector j ≡ bs = ground (arith, z, h) in
            rw⁻¹ w (slot_of-IsSlot ops laws parts s d sector j e k)
      ]

  -- Before and after a successful store: the slots, and which one is new.
  record Stored (d d' : ops.Dev) (key : ℕ) (buf : List ℕ) : Type 0 where
    sector : List ℕ
    target : ℕ
    ready : s.ready ≡ true
    small : length buf ≤ data_max
    before : Reads ops s d s.slot_count 0 (slot_of sector)
    after :
        Reads ops s d' s.slot_count 0
          (λ j. written_slot (some (with_new target (new_slot key buf) sector j)))
    chosen : Target s.slot_count key sector target

  store-Stored :
      (d : ops.Dev) (key : ℕ) (buf : List ℕ)
      → IsPlaced ops s
      → IsBytes buf
      → (store ops s d key buf).0 ≡ true
      → Stored d (store ops s d key buf).1.1 key buf
  store-Stored d key buf placed bytes ok =
      let t = store_steps ops s d key buf ok in
      let s₁ = record s { stage = 2; slot = 4294967295; error = 0 } in
      let slots = λ (i : ℕ). some (with_new t.target (new_slot key buf) t.sector i) in
      let placed' : IsPlaced ops s₁ = record { aligned = placed.aligned; fits = placed.fits } in
      let r =
        rewrite-Reads ops laws t.target slots (λ bs. same_bytes bs (new_slot key buf)) s₁ d placed'
          (with_new-AreSlots d t.sector t.target key buf t.sector_read t.small bytes)
          (ap (λ m. m.0) (sym t.rewritten) ∙ ok) in
      record {
        sector = t.sector;
        target = t.target;
        ready = t.ready;
        small = t.small;
        before = sector_read-Reads ops laws parts s d t.sector t.sector_read;
        after = λ j l k.
            ap (λ m. ops.read m.1.1 (s.sector_addr + j * slot_bytes) slot_bytes) t.rewritten
            ∙ r j l k;
        chosen = target_slot-Target s.slot_count key t.sector t.target t.searched;
      }

  with_new_self :
      (target : ℕ) (new : List ℕ) (sector : List ℕ) → with_new target new sector target ≡ new
  with_new_self target new sector = ground arith

  with_new_other :
      (target j : ℕ) (new : List ℕ) (sector : List ℕ)
      → (j == target) ≡ false
      → with_new target new sector j ≡ slot_of sector j
  with_new_other target j new sector h = rw h refl

  -- The new slot is written as it is.
  written_new :
      (target key : ℕ) (buf sector : List ℕ)
      → holds_key key (new_slot key buf) ≡ true
      → written_slot (some (with_new target (new_slot key buf) sector target)) ≡ new_slot key buf
  written_new target key buf sector h =
      ap (λ b. written_slot (some b)) (with_new_self target (new_slot key buf) sector)
      ∙ (written_slot-holds_key key (new_slot key buf)).1 h

  -- Another slot holds a key after the store where it held it before.
  written_other :
      (target j key : ℕ) (new sector : List ℕ)
      → (j == target) ≡ false
      → let b = written_slot (some (with_new target new sector j)) in
        (holds_key key b ≡ holds_key key (slot_of sector j))
        × (holds_key key (slot_of sector j) ≡ true → b ≡ slot_of sector j)
  written_other target j key new sector h =
      let e = with_new_other target j new sector h in
      let (a, b) = written_slot-holds_key key (slot_of sector j) in
      let w = ap (λ x. written_slot (some x)) e in (ap (holds_key key) w ∙ a, λ k. w ∙ b k)

  -- In a sector of the flash whose reads give the parts of a whole, a value that is stored with success
  -- is what a load of its key finds, with any buffer of 1 to 240 bytes that it fits.
  pub load_flex-store :
      (d : ops.Dev) (key : ℕ) (buf : List ℕ) (cap : ℕ)
      → IsPlaced ops s
      → key < 4294967296
      → IsBytes buf
      → length buf ≤ cap
      → cap ≤ data_max
      → 1 ≤ cap
      → (store ops s d key buf).0 ≡ true
      → load_flex ops s (store ops s d key buf).1.1 key cap ≡ some buf
  unfolding load_flex
  load_flex-store d key buf cap placed small_key bytes fits small some_cap ok =
      let t = store-Stored d key buf placed bytes ok in
      let d' = (store ops s d key buf).1.1 in
      let c = λ (j : ℕ). written_slot (some (with_new t.target (new_slot key buf) t.sector j)) in
      let new = new_slot key buf in
      let holds = holds_key-new_slot key buf small_key t.small in
      let e = written_new t.target key buf t.sector holds in
      let n = ap slot_length e ∙ slot_length-new_slot key buf t.small in
      let first = λ (j : ℕ) (k : j < t.target).
        (written_other t.target j key new t.sector (ground (arith, k))).0
        ∙ t.chosen.first_one j k in
      let found =
        load_from-first ops s s.slot_count 0 key (λ n. leb n cap) d' c t.target t.after
          (omega arith) (omega (arith, t.chosen.in_sector)) (ap (holds_key key) e ∙ holds) first
          (ground (arith, n)) in
      let loaded =
        ap (λ b. take (slot_length b) (drop header_bytes_count b)) e
        ∙ slot_data-new_slot key buf t.small in
      guards s.ready cap _ t.ready some_cap small ∙ found ∙ ap some loaded
    where
      guards :
          (ready : Bool) (n : ℕ) (o : Option (List ℕ))
          → ready ≡ true
          → 1 ≤ n
          → n ≤ data_max
          → (if not ready || n == 0 || ltb data_max n then none else o) ≡ o
      guards ready n o r l k = ground arith

  -- Under the same conditions a successful store changes nothing that a load of another key finds.
  pub load_flex-store_other :
      (d : ops.Dev) (key other : ℕ) (buf : List ℕ) (cap : ℕ)
      → IsPlaced ops s
      → key < 4294967296
      → IsBytes buf
      → other ≢ key
      → (store ops s d key buf).0 ≡ true
      → load_flex ops s (store ops s d key buf).1.1 other cap ≡ load_flex ops s d other cap
  unfolding load_flex
  load_flex-store_other d key other buf cap placed small_key bytes differs ok =
      let t = store-Stored d key buf placed bytes ok in
      let new = new_slot key buf in
      let holds = holds_key-new_slot key buf small_key t.small in
      let e = written_new t.target key buf t.sector holds in
      let c = λ (j : ℕ). written_slot (some (with_new t.target new t.sector j)) in
      let new_other : holds_key other new ≡ false =
        other_key-holds_key new other key (slot_key-new_slot key buf small_key) differs in
      let old_other : holds_key other (slot_of t.sector t.target) ≡ false =
        elim t.chosen.key_or_free [
          | inl h ↦
              other_key-holds_key (slot_of t.sector t.target) other key
                (holds_key-slot_key (slot_of t.sector t.target) key h) differs
          | inr free ↦ invalid-holds_key (slot_of t.sector t.target) other free
        ] in
      ap (λ o. if not s.ready || cap == 0 || ltb data_max cap then none else o)
        (load_from-same ops s s.slot_count 0 other (λ n. leb n cap) d (store ops s d key buf).1.1
          (slot_of t.sector) c t.before t.after
          (λ j. elim (Bool-cases (j == t.target)) [
            | inr k ↦ written_other t.target j other new t.sector k
            | inl k ↦
                let z : t.target ≡ j = ground (arith, k) in
                rw⁻¹ z (
                  ap (holds_key other) e ∙ new_other ∙ sym old_other,
                  λ h. absurd (cc (h, old_other)),
                )
          ]))
