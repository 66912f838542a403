-- ===== src/Boot/Mailbox.antt =====
-- The boot mailbox (App/Platform/Src/boot_mailbox.c), which the bootloader and the application share.
use hpm53m1_g6618motor.Base.{
  ℕ, ◌≡◌, Bool, true, false, ◌&&◌, Option, none, some, ◌==◌, if◌then◌else◌,
}

-- The two registers of the mailbox, which the chip keeps over a hot reset. `get` answers `none`, and
-- `set` answers `false`, where the driver's status is not success.
pub record MailboxOps : Type 1 where
  pub Gpr : Type 0
  pub get : Gpr → Option (ℕ × ℕ)
  pub set : Gpr → ℕ → ℕ → Bool × Gpr

-- The documented behaviour of the driver: what was set is read.
pub record MailboxLaws (o : MailboxOps) : Type 0 where
  pub get_set : (g : o.Gpr) (a b : ℕ) → (o.set g a b).0 ≡ true → o.get (o.set g a b).1 ≡ some (a, b)

abbrev pub mailbox_magic : ℕ
mailbox_magic = 0x47363631

abbrev pub mailbox_request_dfu : ℕ
mailbox_request_dfu = 0x44465530

module _ (box : MailboxOps) where
  open box use {Gpr, get, set}

  -- `boot_mailbox_request_dfu`
  unfoldable pub request_dfu : Gpr → Gpr
  request_dfu g = (set g mailbox_magic mailbox_request_dfu).1

  -- `boot_mailbox_consume_dfu`
  unfoldable pub consume_dfu : Gpr → Bool × Gpr
  consume_dfu g = elim (get g) [
    | none ↦ (false, g)
    | some (a, b) ↦
        if a == mailbox_magic && b == mailbox_request_dfu then (true, (set g 0 0).1) else (false, g)
  ]
