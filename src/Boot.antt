-- ===== src/Boot.antt =====
-- Bootloader and application share this code: App/Platform/Src/boot_meta.c with the layout of
-- intf_boot.h. The parts are the partition addresses and the image header (`Header`), the
-- append-only record log (`Log`), the image log (`Image`) and the boot control log (`Control`).
pub mod Header
pub mod Log
pub mod Control
pub mod Image
pub mod Mailbox
mod Tests
