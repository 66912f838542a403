-- ===== src/Loader/Confine.antt =====
-- Where the buffered writer of the bootloader writes: only into the slot that it was begun for.
use hpm53m1_g6618motor.Base.{
  ℕ, zero, suc, ◌+◌, ◌-◌, ◌%◌, ◌≤◌, ◌<◌, ◌≡◌, refl, ◌∙◌, inl, inr, Bool, true, false, not, ◌&&◌,
  ◌||◌, List, arith, Bool-cases, if◌then◌else◌, ltb, ◌==◌, length, take, drop, length-take,
  length-drop,
}
use hpm53m1_g6618motor.Flash.{FlashOps, Apart}
use hpm53m1_g6618motor.Flash.Ram.{window, length-window}
use hpm53m1_g6618motor.Boot.Header.{slot_size}
use hpm53m1_g6618motor.Loader.Keep.{ViewLaws}
use hpm53m1_g6618motor.Loader.Writer.{
  Writer, writer_begin, writer_abort, fill, writer_commit, switch_sector, flush_full, write_round,
  chunk_size, write_loop, writer_write, writer_finish,
}

-- The writer was begun for the slot at `base`, and the buffered sector, if there is one, lies in it.
pub record IsWriter (base : ℕ) (w : Writer) : Type 0 where
  pub based : w.base ≡ base
  pub small : w.buffered ≤ 4096
  pub inside : w.has_sector ≡ true → (base ≤ w.sector) × (w.sector + 4096 ≤ base + slot_size)

writer_abort-IsWriter : (base : ℕ) (w : Writer) → IsWriter base w → IsWriter base (writer_abort w)
unfolding writer_abort
writer_abort-IsWriter base w i = record {
  based = i.based;
  small = omega arith;
  inside = λ h. ground arith;
}

pub writer_begin-IsWriter : (base : ℕ) (w : Writer) → IsWriter base (writer_begin base w)
unfolding writer_begin
writer_begin-IsWriter base w = record {
  based = refl;
  small = omega arith;
  inside = λ h. ground arith;
}

fill-IsWriter :
    (base off : ℕ) (chunk : List ℕ) (w : Writer)
    → off + length chunk ≤ 4096
    → IsWriter base w
    → IsWriter base (fill off chunk w)
unfolding fill
fill-IsWriter base off chunk w h i = record {
  based = i.based;
  small = ground arith;
  inside = i.inside;
}

module _ (ops : FlashOps) (view : ops.Dev → ℕ → ℕ → List ℕ) where
  -- The two states read the same outside the slot at `base`.
  abbrev pub SameOutsideSlot : ℕ → ops.Dev → ops.Dev → Type 0
  SameOutsideSlot base d d' = (a n : ℕ) → Apart a n base slot_size → view d' a n ≡ view d a n

module _ (ops : FlashOps) (view : ops.Dev → ℕ → ℕ → List ℕ) (keeps : ViewLaws ops view)
    (size : ops.sector_size ≡ 4096) (base : ℕ) where
  -- A call that keeps the writer in its slot.
  abbrev pub Confined : ops.Dev → Bool × (Writer × ops.Dev) → Type 0
  Confined d (ok, (w, d')) = IsWriter base w × SameOutsideSlot ops view base d d'

  either_Confined :
      (d : ops.Dev) (t u : Bool × (Writer × ops.Dev)) (c : Bool)
      → Confined d t
      → Confined d u
      → Confined d (if c then t else u)
  either_Confined d t u true a b = a
  either_Confined d t u false a b = b

  writer_commit-SameOutsideSlot :
      (w : Writer) (d : ops.Dev)
      → IsWriter base w
      → SameOutsideSlot ops view base d (writer_commit ops view w d).1
  unfolding writer_commit
  writer_commit-SameOutsideSlot w d i a n p = elim (Bool-cases w.has_sector) [
    | inr e ↦ rw e refl
    | inl e ↦
        let (lo, hi) = i.inside e in
        let d₁ = (ops.erase_sector d w.sector).1 in
        let bytes = window w.buf 0 w.buffered in
        let erased = keeps.view_erase_apart d a n w.sector (rw size (ground (arith, p))) in
        let len = length-window w.buf 0 w.buffered in
        let programmed =
          keeps.view_program_apart d₁ a n w.sector bytes (ground (arith, p, i.small, len)) in
        ground (arith, e, erased, programmed)
  ]

  switch_sector-Confined :
      (sector : ℕ) (w : Writer) (d : ops.Dev)
      → base ≤ sector
      → sector + 4096 ≤ base + slot_size
      → IsWriter base w
      → Confined d (switch_sector ops view sector w d)
  unfolding switch_sector
  switch_sector-Confined sector w d lo hi i =
      let d₁ = (writer_commit ops view w d).1 in
      let same = writer_commit-SameOutsideSlot w d i in
      let fresh = record w { sector = sector; buffered = 0; has_sector = true } in
      let j : IsWriter base fresh = record {
        based = i.based;
        small = omega arith;
        inside = λ h. (lo, hi);
      } in
      either_Confined d (true, (w, d)) _ (w.has_sector && w.sector == sector) (i, λ a n p. refl)
        (either_Confined d (false, (w, d₁)) (true, (fresh, d₁)) (not (writer_commit ops view w d).0)
          (i, same) (j, same))

  flush_full-Confined :
      (end : ℕ) (w : Writer) (d₀ d : ops.Dev)
      → SameOutsideSlot ops view base d₀ d
      → IsWriter base w
      → Confined d₀ (flush_full ops view end w d)
  unfolding flush_full
  flush_full-Confined end w d₀ d before i =
      let d₁ = (writer_commit ops view w d).1 in
      let same = λ (a n : ℕ) (p : Apart a n base slot_size).
        writer_commit-SameOutsideSlot w d i a n p ∙ before a n p in
      either_Confined d₀ (true, (w, d)) _ (not (end == 4096)) (i, before)
        (either_Confined d₀ (false, (w, d₁)) (true, (writer_abort w, d₁))
          (not (writer_commit ops view w d).0) (i, same) (writer_abort-IsWriter base w i, same))

  write_round-Confined :
      (a : ℕ) (chunk : List ℕ) (w : Writer) (d : ops.Dev)
      → base % 4096 ≡ 0
      → base ≤ a
      → a < base + slot_size
      → a % 4096 + length chunk ≤ 4096
      → IsWriter base w
      → Confined d (write_round ops view a chunk w d)
  unfolding write_round
  write_round-Confined a chunk w d aligned lo hi fits i =
      let m = switch_sector ops view (a - a % 4096) w d in
      let (j, same) = switch_sector-Confined (a - a % 4096) w d (omega arith) (omega arith) i in
      either_Confined d (false, (m.1.0, m.1.1)) _ (not m.0) (j, same)
        (flush_full-Confined (a % 4096 + length chunk) (fill (a % 4096) chunk m.1.0) d m.1.1 same
          (fill-IsWriter base (a % 4096) chunk m.1.0 fits j))

  trans_Confined :
      (d d₁ : ops.Dev) (m : Bool × (Writer × ops.Dev))
      → SameOutsideSlot ops view base d d₁
      → Confined d₁ m
      → Confined d m
  trans_Confined d d₁ m s (i, t) = (i, λ a n p. t a n p ∙ s a n p)

  write_loop-Confined :
      (n a : ℕ) (src : List ℕ) (w : Writer) (d : ops.Dev)
      → base % 4096 ≡ 0
      → base ≤ a
      → a + length src ≤ base + slot_size
      → IsWriter base w
      → Confined d (write_loop ops view n a src w d)
  unfolding write_loop
  write_loop-Confined zero a src w d aligned lo hi i = (i, λ b n p. refl)
  write_loop-Confined (suc n) a src w d aligned lo hi i = elim (Bool-cases (length src == 0)) [
    | inl e ↦ rw e (i, λ b n p. refl)
    | inr e ↦
        let k = chunk_size a (length src) in
        let t = length-take k src in
        let r = length-drop k src in
        let m = write_round ops view a (take k src) w d in
        let step =
          write_round-Confined a (take k src) w d aligned lo (ground (arith, e)) (ground (arith, t))
            i in
        let rest = write_loop ops view n (a + k) (drop k src) m.1.0 m.1.1 in
        rw e (
          either_Confined d (false, (m.1.0, m.1.1)) rest (not m.0) step
            (trans_Confined d m.1.1 rest step.1 (
              write_loop-Confined n (a + k) (drop k src) m.1.0 m.1.1 aligned (omega arith)
                (ground (arith, r)) step.0)))
  ]

  pub writer_write-Confined :
      (address : ℕ) (src : List ℕ) (w : Writer) (d : ops.Dev)
      → base % 4096 ≡ 0
      → IsWriter base w
      → Confined d (writer_write ops view address src w d)
  unfolding writer_write
  writer_write-Confined address src w d aligned i =
      elim (Bool-cases (
        length src == 0 || ltb address w.base || ltb (w.base + slot_size) (address + length src))) [
          | inl refused ↦ rw refused (i, λ b n p. refl)
          | inr taken ↦ rw taken (
              write_loop-Confined (length src) address src w d aligned
                (ground (arith, taken, i.based)) (ground (arith, taken, i.based)) i)
        ]

  pub writer_finish-Confined :
      (w : Writer) (d : ops.Dev) → IsWriter base w → Confined d (writer_finish ops view w d)
  unfolding writer_finish
  writer_finish-Confined w d i =
      (writer_abort-IsWriter base w i, writer_commit-SameOutsideSlot w d i)
