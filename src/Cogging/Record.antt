-- ===== src/Cogging/Record.antt =====
-- The record of the tables: its size and the checks that it passes (app_cogging_store.c).
use hpm53m1_g6618motor.Base.{
  ℕ, zero, suc, ◌+◌, ◌<◌, ◌≡◌, refl, sym, ap, ◌∙◌, true, List, [], ◌∷◌, ◌++◌, ◌==◌, length, take,
  drop, length-append, get32, arith, IsBytes, IsBytes-append,
}
use hpm53m1_g6618motor.Crc.{param_crc32, param_crc32-lt}
use hpm53m1_g6618motor.Cogging.{
  tables_size, record_size, record_bytes, store_record, without_crc, fields_match,
}

take_append : (xs ys : List ℕ) (n : ℕ) → n ≡ length xs → take n (xs ++ ys) ≡ xs
take_append [] ys zero h = refl
take_append [] ys (suc n) h = absurd (omega (arith, h))
take_append (x ∷ xs) ys zero h = absurd (omega (arith, h))
take_append (x ∷ xs) ys (suc n) h = ap (λ t. x ∷ t) (take_append xs ys n (omega (arith, h)))

length-record_bytes :
    (tables : List ℕ) (crc : ℕ) → length (record_bytes tables crc) ≡ length tables + 26
unfolding record_bytes
length-record_bytes tables crc = let a = length-append tables (0 ∷ 0 ∷ []) in omega (arith, a)

pub length-store_record :
    (tables : List ℕ) → length tables ≡ tables_size → length (store_record tables) ≡ record_size
unfolding store_record
length-store_record tables h =
    length-record_bytes tables (param_crc32 (record_bytes tables 0)) ∙ omega (arith, h)

without_crc-record_bytes :
    (tables : List ℕ) (crc : ℕ) → without_crc (record_bytes tables crc) ≡ record_bytes tables 0
unfolding record_bytes without_crc
without_crc-record_bytes tables crc = refl

crc-record_bytes :
    (tables : List ℕ) (crc : ℕ) → crc < 4294967296 → get32 (record_bytes tables crc) 20 ≡ crc
unfolding record_bytes
crc-record_bytes tables crc h = omega (arith, h)

fields_match-record_bytes :
    (tables : List ℕ) (crc : ℕ) → fields_match (record_bytes tables crc) ≡ true
unfolding record_bytes fields_match
fields_match-record_bytes tables crc = refl

tables-record_bytes :
    (tables : List ℕ) (crc n : ℕ)
    → n ≡ length tables
    → take n (drop 24 (record_bytes tables crc)) ≡ tables
unfolding record_bytes
tables-record_bytes tables crc n h = take_append tables (0 ∷ 0 ∷ []) n h

-- A record that was saved passes the checks of a load.
pub store_record-accepted :
    (tables : List ℕ)
    → length tables ≡ tables_size
    → (fields_match (store_record tables) ≡ true)
      × ((param_crc32 (without_crc (store_record tables)) == get32 (store_record tables) 20) ≡ true)
      × (take tables_size (drop 24 (store_record tables)) ≡ tables)
unfolding store_record
store_record-accepted tables n =
    let crc = param_crc32 (record_bytes tables 0) in
    let a = ap param_crc32 (without_crc-record_bytes tables crc) in
    let b = crc-record_bytes tables crc (param_crc32-lt (record_bytes tables 0)) in
    (
      fields_match-record_bytes tables crc,
      rw (a, b) (ground arith),
      tables-record_bytes tables crc tables_size (sym n),
    )

pub store_record-IsBytes : (tables : List ℕ) → IsBytes tables → IsBytes (store_record tables)
unfolding store_record record_bytes
store_record-IsBytes tables h =
    let crc = param_crc32 (record_bytes tables 0) in
    let body = tables ++ 0 ∷ 0 ∷ [] in
    let body_ok = IsBytes-append tables (0 ∷ 0 ∷ []) h (omega arith, (omega arith, tt)) in
    (
      omega arith,
      (
        omega arith,
        (
          omega arith,
          (
            omega arith,
            (
              omega arith,
              (
                omega arith,
                (
                  omega arith,
                  (
                    omega arith,
                    (
                      omega arith,
                      (
                        omega arith,
                        (
                          omega arith,
                          (
                            omega arith,
                            (
                              omega arith,
                              (
                                omega arith,
                                (
                                  omega arith,
                                  (
                                    omega arith,
                                    (
                                      omega arith,
                                      (
                                        omega arith,
                                        (
                                          omega arith,
                                          (
                                            omega arith,
                                            (
                                              omega arith,
                                              (omega arith, (omega arith, (omega arith, body_ok))),
                                            ),
                                          ),
                                        ),
                                      ),
                                    ),
                                  ),
                                ),
                              ),
                            ),
                          ),
                        ),
                      ),
                    ),
                  ),
                ),
              ),
            ),
          ),
        ),
      ),
    )
