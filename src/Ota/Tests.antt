-- ===== src/Ota/Tests.antt =====
-- The request for DFU on a flash and a mailbox in memory.
use Prim.Native.Nat.{bit_xor}
use hpm53m1_g6618motor.Base.{ℕ, ◌≡◌, ◌≢◌, refl, true, some, arith}
use hpm53m1_g6618motor.Flash.Ram.{ram, ram-laws, window}
use hpm53m1_g6618motor.Boot.Mailbox.{MailboxOps, MailboxLaws}
use hpm53m1_g6618motor.Boot.Control.{confirm_running_slot}
use hpm53m1_g6618motor.Loader.Start.{start, jump, dfu}
use hpm53m1_g6618motor.Loader.Tests.{ram-ViewLaws}
use hpm53m1_g6618motor.Loader.Tests.Upload.{one_image, one_image-IsControlLog, uploads, valid_one}
use hpm53m1_g6618motor.Ota.{confirm, app_request_dfu, get_status}
use hpm53m1_g6618motor.Ota.Request.{app_request_dfu-start}

-- Two registers.
abbrev gpr : MailboxOps
gpr = record { Gpr = ℕ × ℕ; get = λ g. some g; set = λ g a b. (true, (a, b)) }

gpr-MailboxLaws : MailboxLaws gpr
gpr-MailboxLaws = record { get_set = λ g a b h. refl }

confirms : (confirm ram true (some 0) one_image).0 ≡ true
unfolding uploads confirm confirm_running_slot
confirms = refl

app_request_dfu-start_example :
    let (g', d') = app_request_dfu ram gpr true (some 0) (0, 0) one_image in
    let (next, (g'', d'')) = start ram window gpr g' d' in
    (next ≡ dfu (bit_xor 0 1) true)
    × ((get_status ram window true (some 0) one_image).1.upgrade_target_slot ≡ bit_xor 0 1)
    × (0 ≢ bit_xor 0 1)
    × (start ram window gpr g'' d'' ≡ (jump 0, (g'', d'')))
app_request_dfu-start_example =
    app_request_dfu-start ram window gpr ram-laws ram-ViewLaws gpr-MailboxLaws refl 0 (0, 0)
      one_image (omega arith) valid_one one_image-IsControlLog confirms refl refl
