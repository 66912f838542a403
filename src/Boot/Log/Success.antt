-- ===== src/Boot/Log/Success.antt =====
-- A log append on a flash whose calls succeed (boot_meta.c, `log_append`).
use hpm53m1_g6618motor.Base.{
  IsBytes, byte_at-IsBytes, ℕ, zero, suc, ◌+◌, ◌*◌, ◌%◌, ◌≤◌, ◌<◌, ◌≡◌, refl, ◌∙◌, ap, inl, inr,
  true, some, List, [], ◌∷◌, length, replicate, arith, Option-cases, Bool-cases, all_ff,
  same_bytes_self,
}
use hpm53m1_g6618motor.Flash.{FlashOps, FlashLaws}
use hpm53m1_g6618motor.Boot.Header.{flash_base, flash_size}
use hpm53m1_g6618motor.Boot.Log.Entries.{next_erased-end}
use hpm53m1_g6618motor.Boot.Log.{
  rounds_of, record_is_erased, next_erased, log_append, log_verify, write_record,
}
use hpm53m1_g6618motor.Boot.Log.Append.{log_append-room, log_append-full}

-- No call of the backend fails that keeps the preconditions of `boot_flash_erase` and
-- `boot_flash_program` (bootloader/src/flash.c) and of intf_flash.h: an erase of a sector of the flash, a
-- write of at least one byte from an aligned address on, inside one sector of the flash.
pub record IsReliable (ops : FlashOps) : Type 0 where
  pub erases :
      (d : ops.Dev) (s : ℕ)
      → s % ops.sector_size ≡ 0
      → flash_base ≤ s
      → s < flash_base + flash_size
      → (ops.erase_sector d s).0 ≡ true
  pub programs :
      (d : ops.Dev) (a : ℕ) (bs : List ℕ)
      → 1 ≤ length bs
      → a % 4 ≡ 0
      → flash_base ≤ a
      → a + length bs ≤ flash_base + flash_size
      → a % ops.sector_size + length bs ≤ ops.sector_size
      → (ops.program d a bs).0 ≡ true

replicate_of_all_ff : (bs : List ℕ) → all_ff bs ≡ true → bs ≡ replicate (length bs) 255
replicate_of_all_ff [] h = refl
replicate_of_all_ff (b ∷ bs) h = ground (arith, replicate_of_all_ff bs)

module _ (ops : FlashOps) (laws : FlashLaws ops) (reliable : IsReliable ops) where
  record_is_erased-read :
      (d : ops.Dev) (addr size : ℕ)
      → record_is_erased ops d addr size ≡ true
      → ops.read d addr size ≡ some (replicate size 255)
  unfolding record_is_erased
  record_is_erased-read d addr size h = elim (Option-cases (ops.read d addr size)) [
    | inl e ↦ ground (arith, e)
    | inr (bs, e) ↦
        let q : all_ff bs ≡ true = ground (arith, e) in
        e
        ∙ ap some (
            replicate_of_all_ff bs q
            ∙ ap (λ n. replicate n 255) (laws.read_length d addr size bs e))
  ]

  next_erased-erased :
      (n : ℕ) (d : ops.Dev) (sector size off o : ℕ)
      → next_erased ops n d sector size off ≡ some o
      → record_is_erased ops d (sector + o) size ≡ true
  unfolding next_erased
  next_erased-erased zero d sector size off o h = ground arith
  next_erased-erased (suc n) d sector size off o h =
      elim (Bool-cases (record_is_erased ops d (sector + off) size)) [
        | inl e ↦ let q : off ≡ o = ground (arith, e) in rw⁻¹ q e
        | inr e ↦ next_erased-erased n d sector size (off + size) o (rw (e, next_erased) at h)
      ]

  write_record-succeeds :
      (d : ops.Dev) (addr : ℕ) (rec : List ℕ)
      → IsBytes rec
      → (ops.program d addr rec).0 ≡ true
      → ops.read d addr (length rec) ≡ some (replicate (length rec) 255)
      → (write_record ops d addr rec).0 ≡ true
  unfolding write_record log_verify
  write_record-succeeds d addr rec small ok blank =
      let r = laws.read_programmed d addr rec (λ i. byte_at-IsBytes rec i small) ok blank in
      rw (ok, r, log_verify) (same_bytes_self rec)

  next_erased-aligned :
      (n : ℕ) (d : ops.Dev) (sector size off o : ℕ)
      → size % 4 ≡ 0
      → off % 4 ≡ 0
      → next_erased ops n d sector size off ≡ some o
      → o % 4 ≡ 0
  unfolding next_erased
  next_erased-aligned zero d sector size off o a b h = ground arith
  next_erased-aligned (suc n) d sector size off o a b h =
      elim (Bool-cases (record_is_erased ops d (sector + off) size)) [
        | inl e ↦ let q : off ≡ o = ground (arith, e) in rw⁻¹ q b
        | inr e ↦
            next_erased-aligned n d sector size (off + size) o a (omega arith)
              (rw (e, next_erased) at h)
      ]

  -- A slot of a log in a 4 KB sector of the flash takes a record.
  slot_programs :
      (d : ops.Dev) (sector o : ℕ) (rec : List ℕ)
      → ops.sector_size ≡ 4096
      → 1 ≤ length rec
      → sector % 4096 ≡ 0
      → flash_base ≤ sector
      → sector < flash_base + flash_size
      → o % 4 ≡ 0
      → o + length rec ≤ 4096
      → (ops.program d (sector + o) rec).0 ≡ true
  slot_programs d sector o rec size filled aligned low high part fits =
      reliable.programs d (sector + o) rec filled (omega arith) (omega arith) (omega arith)
        (rw size (omega arith))

  -- A write of bytes to a log in a 4 KB sector of the flash succeeds, whether the log has room or is
  -- full.
  pub log_append-succeeds :
      (d : ops.Dev) (sector : ℕ) (rec : List ℕ)
      → ops.sector_size ≡ 4096
      → IsBytes rec
      → 1 ≤ length rec
      → length rec % 4 ≡ 0
      → rounds_of (length rec) * length rec ≤ 4096
      → length rec ≤ 4096
      → sector % 4096 ≡ 0
      → flash_base ≤ sector
      → sector < flash_base + flash_size
      → (log_append ops d sector rec).0 ≡ true
  log_append-succeeds d sector rec size small filled words room fits aligned low high =
      let z = length rec in
      elim (Option-cases (next_erased ops (rounds_of z) d sector z 0)) [
        | inl full ↦
            let d₁ = (ops.erase_sector d sector).1 in
            let start : sector % ops.sector_size ≡ 0 = rw size aligned in
            let ok = reliable.erases d sector start low high in
            rw (log_append-full ops d sector rec full, ok)
              (write_record-succeeds d₁ (sector + 0) rec small
                (slot_programs d₁ sector 0 rec size filled aligned low high refl (omega arith))
                (laws.read_erased d sector (sector + 0) z ok start filled (omega arith)
                  (omega (arith, size))))
        | inr (o, h) ↦
            let inside = next_erased-end ops sector z (rounds_of z) d 0 o h in
            let part = next_erased-aligned (rounds_of z) d sector z 0 o words refl h in
            rw (log_append-room ops d sector rec o h) (
              write_record-succeeds d (sector + o) rec small
                (slot_programs d sector o rec size filled aligned low high part
                  (omega (arith, inside, room)))
                (record_is_erased-read d (sector + o) z (next_erased-erased _ d sector z 0 o h)))
      ]
