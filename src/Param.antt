-- ===== src/Param.antt =====
-- The key-value store in the parameter sector of the flash (App/Platform/Src/app_param.c). A slot is
-- its 256 bytes; `none` and `false` are the result -1.
pub mod Load
pub mod Slot
pub mod Rewrite
pub mod Scan
pub mod Place
pub mod Stored
pub mod Erased
pub mod Record
pub mod Init
pub mod Tests
use hpm53m1_g6618motor.Base.{
  ℕ, zero, suc, ◌+◌, ◌-◌, ◌*◌, ◌/◌, ◌%◌, Bool, true, false, not, ◌&&◌, ◌||◌, Option, none, some,
  List, [], ◌∷◌, ◌++◌, ltb, leb, ◌==◌, if◌then◌else◌, length, take, drop, replicate, push16, push32,
  get16, get32, same_bytes,
}
use hpm53m1_g6618motor.Crc.{param_crc32}
use hpm53m1_g6618motor.Flash.{FlashOps}

abbrev pub param_magic : ℕ
param_magic = 0x504D5048

abbrev pub slot_bytes : ℕ
slot_bytes = 256

abbrev pub data_max : ℕ
data_max = 240

abbrev pub header_bytes_count : ℕ
header_bytes_count = 12

-- The static variables: where the sector lies, and the diagnostic ones.
pub record Store : Type 0 where
  pub ready : Bool
  pub sector_addr : ℕ
  pub slot_count : ℕ
  pub stage : ℕ
  pub slot : ℕ
  pub error : ℕ

abbrev pub slot_key : List ℕ → ℕ
slot_key bs = get32 bs 4

abbrev pub slot_length : List ℕ → ℕ
slot_length bs = get16 bs 10

-- `param_slot_valid`
unfoldable pub param_slot_valid : List ℕ → Bool
param_slot_valid bs =
    if not (get32 bs 0 == param_magic)
    then false
    else if ltb data_max (slot_length bs)
    then false
    else param_crc32 (take (header_bytes_count + slot_length bs) bs) == get32 bs 252

unfoldable pub holds_key : ℕ → List ℕ → Bool
holds_key key bs = param_slot_valid bs && slot_key bs == key

-- The record that `app_param_store` builds in its slot, up to the checksum and with it.
unfoldable pub slot_front : ℕ → List ℕ → List ℕ
slot_front key buf =
    push32 param_magic
      (push32 key (push16 1 (push16 (length buf) (buf ++ replicate (data_max - length buf) 0))))

unfoldable pub new_slot : ℕ → List ℕ → List ℕ
new_slot key buf =
    let front = slot_front key buf in
    front ++ push32 (param_crc32 (take (header_bytes_count + length buf) front)) []

-- The slot `i` of the sector's buffer.
abbrev pub slot_of : List ℕ → ℕ → List ℕ
slot_of sector i = take slot_bytes (drop (i * slot_bytes) sector)

-- The first of the slots from `i` on that passes the test.
unfoldable pub find_slot : ℕ → ℕ → (List ℕ → Bool) → List ℕ → Option ℕ
find_slot zero i test sector = none
find_slot (suc n) i test sector =
    let rest = find_slot n (i + 1) test sector in if test (slot_of sector i) then some i else rest

-- The slot of the key, or the first one that is free.
unfoldable pub target_slot : ℕ → ℕ → List ℕ → Option ℕ
target_slot count key sector = elim (find_slot count 0 (holds_key key) sector) [
  | some i ↦ some i
  | none ↦ find_slot count 0 (λ bs. not (param_slot_valid bs)) sector
]

module _ (ops : FlashOps) where
  open ops use {Dev, read, erase_sector, program}

  -- The scan of both loading functions: `fits` is their test of the length of the record found.
  unfoldable pub load_from : ℕ → ℕ → Store → Dev → ℕ → (ℕ → Bool) → Option (List ℕ)
  load_from zero i s d key fits = none
  load_from (suc n) i s d key fits =
      let rest = load_from n (i + 1) s d key fits in
      elim (read d (s.sector_addr + i * slot_bytes) slot_bytes) [
        | none ↦ none
        | some bs ↦
            if holds_key key bs
            then (if fits (slot_length bs)
                then some (take (slot_length bs) (drop header_bytes_count bs))
                else none)
            else rest
      ]

  -- `app_param_load`
  unfoldable pub load : Store → Dev → ℕ → ℕ → Option (List ℕ)
  load s d key len =
      if not s.ready || len == 0 || ltb data_max len
      then none
      else load_from s.slot_count 0 s d key (λ n. n == len)

  -- `app_param_load_flex`; the length is that of the list.
  unfoldable pub load_flex : Store → Dev → ℕ → ℕ → Option (List ℕ)
  load_flex s d key cap =
      if not s.ready || cap == 0 || ltb data_max cap
      then none
      else load_from s.slot_count 0 s d key (λ n. leb n cap)

  -- The loop that writes the valid slots back, where `slots` gives the slot and whether it is left out.
  unfoldable pub write_back : ℕ → ℕ → (ℕ → Option (List ℕ)) → Store → Dev → Bool × (Store × Dev)
  write_back zero i slots s d = (true, (s, d))
  write_back (suc n) i slots s d = elim (slots i) [
    | none ↦ write_back n (i + 1) slots s d
    | some bs ↦
        let t = record s { slot = i } in
        if not (param_slot_valid bs)
        then write_back n (i + 1) slots t d
        else let (ok, d') = program d (s.sector_addr + i * slot_bytes) bs in
          let rest = write_back n (i + 1) slots t d' in
          if ok then rest else (false, (record t { error = 4 }, d'))
  ]

  -- The third to fifth steps of `app_param_store` and `app_param_erase`: erasing, writing back and
  -- reading the slot `target` again.
  unfoldable pub rewrite :
      ℕ → (ℕ → Option (List ℕ)) → (List ℕ → Bool) → Store → Dev → Bool × (Store × Dev)
  rewrite target slots good s d =
      let (erased, d₁) = erase_sector d s.sector_addr in
      if not erased
      then (false, (record s { stage = 3; error = 3 }, d₁))
      else let (ok, (t, d₂)) = write_back s.slot_count 0 slots (record s { stage = 4 }) d₁ in
        if not ok
        then (false, (t, d₂))
        else elim (read d₂ (s.sector_addr + target * slot_bytes) slot_bytes) [
          | none ↦ (false, (record t { stage = 5; error = 5 }, d₂))
          | some bs ↦
              if good bs
              then (true, (record t { stage = 6 }, d₂))
              else (false, (record t { stage = 5; error = 6 }, d₂))
        ]

  -- `app_param_store`
  unfoldable pub store : Store → Dev → ℕ → List ℕ → Bool × (Store × Dev)
  store s d key buf =
      let s₀ = record s { stage = 0; slot = 4294967295; error = 0 } in
      if not s.ready || length buf == 0 || ltb data_max (length buf)
      then (false, (record s₀ { error = 1 }, d))
      else elim (read d s.sector_addr (s.slot_count * slot_bytes)) [
        | none ↦ (false, (record s₀ { stage = 1; error = 2 }, d))
        | some sector ↦ elim (target_slot s.slot_count key sector) [
          | none ↦ (false, (record s₀ { stage = 2 }, d))
          | some target ↦
              rewrite target
                (λ i. some (if i == target then new_slot key buf else slot_of sector i))
                (λ bs. same_bytes bs (new_slot key buf)) (record s₀ { stage = 2 }) d
        ]
      ]

  -- `app_param_erase`
  unfoldable pub erase : Store → Dev → ℕ → Bool × (Store × Dev)
  erase s d key =
      let s₀ = record s { stage = 0; slot = 4294967295; error = 0 } in
      if not s.ready
      then (false, (record s₀ { error = 1 }, d))
      else elim (read d s.sector_addr (s.slot_count * slot_bytes)) [
        | none ↦ (false, (record s₀ { stage = 1; error = 2 }, d))
        | some sector ↦ elim (find_slot s.slot_count 0 (holds_key key) sector) [
          | none ↦ (true, (record s₀ { stage = 6 }, d))
          | some target ↦
              rewrite target (λ i. if i == target then none else some (slot_of sector i))
                (λ bs. not (param_slot_valid bs)) (record s₀ { stage = 1 }) d
        ]
      ]
