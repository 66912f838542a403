-- ===== src/Loader/Start.antt =====
-- The start of the bootloader (bootloader/src/main.c), after the set-up of the board and the clock.
use hpm53m1_g6618motor.Base.{ℕ, Bool, false, none, some, List, if◌then◌else◌}
use hpm53m1_g6618motor.Flash.{FlashOps}
use hpm53m1_g6618motor.Boot.Mailbox.{MailboxOps, consume_dfu}
use hpm53m1_g6618motor.Loader.{decide, dfu_target}

-- How a start ends: in `boot_jump` with the slot, or in `dfu_run` with the target slot and whether it
-- may time out.
pub data Start : Type 0 where
  jump : ℕ → Start
  dfu : ℕ → Bool → Start

module _ (ops : FlashOps) (view : ops.Dev → ℕ → ℕ → List ℕ) (box : MailboxOps) where
  unfoldable pub dfu_start : ops.Dev → Start
  dfu_start d = let (slot, allow_timeout) = dfu_target ops view d in dfu slot allow_timeout

  -- `main`
  unfoldable pub start : box.Gpr → ops.Dev → Start × (box.Gpr × ops.Dev)
  start g d =
      let (requested, g') = consume_dfu box g in
      let (decision, d') = decide ops view d false in
      if requested
      then (dfu_start d, (g', d))
      else elim decision [ some slot ↦ (jump slot, (g', d')) | none ↦ (dfu_start d', (g', d')) ]
