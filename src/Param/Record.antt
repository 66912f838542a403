-- ===== src/Param/Record.antt =====
-- Records with a generation over the parameter store (App/Platform/Src/app_param_record.c).
use hpm53m1_g6618motor.Base.{
  ℕ, ◌+◌, ◌-◌, ◌≤◌, ◌<◌, ◌≡◌, ◌≢◌, refl, ◌∙◌, sym, ap, Bool, true, false, not, ◌||◌, Option, none,
  some, List, ltb, ◌==◌, if◌then◌else◌, length, drop, push32, get32, arith, inl, inr, Bool-cases,
  IsBytes, IsBytes-push32,
}
use hpm53m1_g6618motor.Flash.{FlashOps, FlashLaws}
use hpm53m1_g6618motor.Param.{Store, data_max, store, load_flex}
use hpm53m1_g6618motor.Param.Place.{ReadsParts, IsPlaced}
use hpm53m1_g6618motor.Param.Stored.{load_flex-store}

-- The size of `app_param_record_header_t`.
abbrev pub record_header_size : ℕ
record_header_size = 4

-- The checks on what was found, and the copy of the payload.
unfoldable pub payload_of : ℕ → ℕ → ℕ → List ℕ → Option (List ℕ)
payload_of cap min_size generation stored =
    let n = length stored - record_header_size in
    if ltb (length stored) record_header_size
    then none
    else if not (get32 stored 0 == generation)
    then none
    else if ltb n min_size || ltb cap n
    then none
    else some (drop record_header_size stored)

module _ (ops : FlashOps) where
  open ops use {Dev}

  -- `app_param_record_load_prefix`
  unfoldable pub record_load_prefix : Store → Dev → ℕ → ℕ → ℕ → ℕ → Option (List ℕ)
  record_load_prefix s d key cap min_size generation =
      if cap == 0 || min_size == 0 || ltb cap min_size
      then none
      else if not s.ready
      then none
      else elim (load_flex ops s d key data_max) [
        | none ↦ none
        | some stored ↦ payload_of cap min_size generation stored
      ]

  -- `app_param_record_load`
  unfoldable pub record_load : Store → Dev → ℕ → ℕ → ℕ → Option (List ℕ)
  record_load s d key size generation = record_load_prefix s d key size size generation

  -- `app_param_record_store`
  unfoldable pub record_store : Store → Dev → ℕ → List ℕ → ℕ → Bool × (Store × Dev)
  record_store s d key payload generation =
      if length payload == 0 || ltb data_max (length payload + record_header_size)
      then (false, (s, d))
      else if not s.ready
      then (false, (s, d))
      else store ops s d key (push32 generation payload)

payload_of-same :
    (cap min_size generation : ℕ) (payload : List ℕ)
    → generation < 4294967296
    → min_size ≤ length payload
    → length payload ≤ cap
    → payload_of cap min_size generation (push32 generation payload) ≡ some payload
unfolding payload_of
payload_of-same cap min_size generation payload g l h = ground arith

payload_of-other :
    (cap min_size generation other : ℕ) (payload : List ℕ)
    → generation < 4294967296
    → other ≢ generation
    → payload_of cap min_size other (push32 generation payload) ≡ none
unfolding payload_of
payload_of-other cap min_size generation other payload g differs = ground arith

module _ (ops : FlashOps) (laws : FlashLaws ops) (parts : ReadsParts ops) (s : Store) where
  record_store-ok :
      (d : ops.Dev) (key : ℕ) (payload : List ℕ) (generation : ℕ)
      → (record_store ops s d key payload generation).0 ≡ true
      → (s.ready ≡ true)
        × (1 ≤ length payload)
        × (length payload + 4 ≤ data_max)
        × (record_store ops s d key payload generation
            ≡ store ops s d key (push32 generation payload))
  unfolding record_store
  record_store-ok d key payload generation ok =
      let bad = length payload == 0 || ltb data_max (length payload + record_header_size) in
      elim (Bool-cases bad) [
        | inl b ↦ absurd (cc (rw b at ok))
        | inr b ↦ elim (Bool-cases (not s.ready)) [
          | inl r ↦ absurd (cc (rw (b, r) at ok))
          | inr r ↦ (ground (arith, r), ground (arith, b), ground (arith, b), rw (b, r) refl)
        ]
      ]

  record_load_prefix-found :
      (d : ops.Dev) (key cap min_size generation : ℕ) (stored : List ℕ)
      → s.ready ≡ true
      → 1 ≤ min_size
      → min_size ≤ cap
      → load_flex ops s d key data_max ≡ some stored
      → record_load_prefix ops s d key cap min_size generation
        ≡ payload_of cap min_size generation stored
  unfolding record_load_prefix
  record_load_prefix-found d key cap min_size generation stored r l m e =
      let sizes : (cap == 0 || min_size == 0 || ltb cap min_size) ≡ false = ground arith in
      rw (e, sizes, r, record_load_prefix) refl

  -- In a sector of the flash whose reads give the parts of a whole, a record that is stored with success
  -- is what a load with its generation finds, where the least length asked for is not 0, the payload has
  -- it and fits the buffer; and a load with another generation finds nothing.
  pub record_load_prefix-record_store :
      (d : ops.Dev) (key : ℕ) (payload : List ℕ) (generation other cap min_size : ℕ)
      → IsPlaced ops s
      → key < 4294967296
      → IsBytes payload
      → generation < 4294967296
      → other ≢ generation
      → 1 ≤ min_size
      → min_size ≤ length payload
      → length payload ≤ cap
      → (record_store ops s d key payload generation).0 ≡ true
      → let d' = (record_store ops s d key payload generation).1.1 in
        (record_load_prefix ops s d' key cap min_size generation ≡ some payload)
        × (record_load_prefix ops s d' key cap min_size other ≡ none)
  record_load_prefix-record_store d key payload generation other cap min_size placed k bytes g
        differs some_min enough fits ok =
      let (ready, l, small, way) = record_store-ok d key payload generation ok in
      let buf = push32 generation payload in
      let done = ap (λ m. m.0) (sym way) ∙ ok in
      let d' = (store ops s d key buf).1.1 in
      let found =
        load_flex-store ops laws parts s d key buf data_max placed k
          (IsBytes-push32 generation payload bytes) (omega (arith, small)) (omega arith)
          (omega arith) done in
      let a =
        record_load_prefix-found d' key cap min_size generation buf ready some_min
          (omega (arith, enough, fits)) found in
      let b =
        record_load_prefix-found d' key cap min_size other buf ready some_min
          (omega (arith, enough, fits)) found in
      rw way (
        a ∙ payload_of-same cap min_size generation payload g enough fits,
        b ∙ payload_of-other cap min_size generation other payload g differs,
      )
