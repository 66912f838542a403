-- ===== src/Lib.antt =====
-- Verification library of the firmware of the HPM53M1 G6618 motor controller.
--
-- The firmware keeps two application images and their logs in flash, takes commands over CAN, and
-- guards the power stage by a fault module. The parts that are modelled, and where:
--
-- * Boot metadata, App/Platform/Src/boot_meta.c and Interface/intf_boot.h: Boot/Header (slots and the
--   image header), Boot/Log (the append-only log in a sector: `record_is_erased`, `log_next_slot`,
--   `log_append` and the scan of the two loading functions), Boot/Control (the control log:
--   `boot_control_load`, `boot_control_save`, `boot_confirm_running_slot`) and Boot/Image (the image
--   logs). Lemmas on a log of either kind stand below Boot/Log.
-- * The checksum, `boot_crc32` and the `param_crc32` of App/Platform/Src/app_param.c: Crc.
-- * Bootloader, bootloader/src: Loader (boot.c: validity and choice of the slot, attempts, commit),
--   Loader/Writer (the buffered writer of flash.c), Loader/Dfu (the session of dfu.c) and Loader/Start
--   (main.c). It reads the control log of Boot, writes the other slot, and commits it as pending.
-- * The application's side of an upgrade, App/Platform/Src/app_boot.c and boot_mailbox.c: Ota and
--   Boot/Mailbox. The request for DFU goes through the mailbox to the next start of the bootloader.
-- * CAN, App/Comm/can/Src: Can/Protocol (app_can_protocol.c), Can/Policy (app_can_policy.c),
--   Can/Service with its children Execute and Process (app_can_service.c), and Can/NodeId
--   (App/Platform/Src/app_can_id.c). The receive callback fills a ring, the step of the service takes
--   frames out of it, decodes, plans and executes them; the watchdog raises a fault of Fault and asks
--   for a controlled stop where the policy is STOP.
-- * The CAN platform layer below the service, App/Platform/Src/app_can.c: Can/Transport (the ring between the
--   interrupt and the task, and its statistics) and Can/Transport/Setup (set-up, sending, filters). Its
--   poll hands each message to the callback that the CAN service sets.
-- * Fault protection, App/Control/Src/app_fault.c: Fault (latches and the action policy), Fault/Tick
--   (the 1 kHz tick, `fault_conditions_ok` and `app_fault_clear`) and Fault/Wdog (the overcurrent
--   watchdog of the ADC) and Fault/Levels (settings). Fault/History puts the calls into any order;
--   Fault/Blocking follows the cached mask of the codes that ask for an action.
-- * Parameter store, App/Platform/Src/app_param.c: Param, on the bytes of the slots of its sector, with
--   Param/Init (`app_param_init`) and Param/Record (app_param_record.c, records with a generation).
-- * Cogging compensation, App/Control/Src: Cogging (the tables of app_cogging.c and their flash sector,
--   app_cogging_store.c) and Cogging/Switches (the switches of app_cogging.c).
--
-- State is passed explicitly: a C function with static variables is a function on a record of them, and
-- a result code is a Boolean, an option or a data type. Machine integers are natural numbers with their
-- wrap-around written out; floats are their bit patterns, with arithmetic as a parameter (Float) and
-- the finiteness test on the bits, as in the source. A bit map of fault codes is a function of the bit.
--
-- The flash backend is the parameter FlashOps of Flash, with its documented behaviour as the laws
-- FlashLaws: a read fills the buffer, programming touches its own range only and stores the data in an
-- erased range, and a part of an erased sector reads 0xFF. Flash/Ram has two instances, one that
-- always succeeds and one whose writes fail; that of Flash/Nor refuses misaligned, empty and out-of-
-- range calls and writes across sectors. The bootloader also reads flash through the memory map: that
-- is the parameter `view`, and ViewLaws of Loader/Keep says that a call of the backend changes it in
-- its own range only and that a read of the backend copies out of it. IsReliable of Boot/Log/Success
-- says that no call fails that keeps the preconditions of bootloader/src/flash.c and intf_flash.h.
-- ReadsParts of Param/Place says that a read of a part of the flash gives that part of a read of the
-- whole. The registers of the mailbox are the parameter MailboxOps, and the CAN driver is the
-- parameter CanDriver. What the CAN service calls of FOC, motion, parameters and faults is the
-- interface CanEnv of Can/Service/Execute; what the fault module reads is the record Sensors of
-- Fault/Tick.
--
-- Loops over a sector run on as many rounds as the sector has records (4096 bytes by the record's
-- size, `rounds_of`), the writer's loop on the number of bytes left, of which each round takes one at
-- least, the chunks of the cogging record on seven (1596 bytes by 256), the loop over the received
-- frames on its own bound of eight, the loops over codes on the twelve codes, and the poll of the CAN
-- layer on one round more than the ring has places, so no fuel runs out.
--
-- Not modelled: null pointers, the debug mirror variables, interrupts in the middle of a function,
-- delays, the set-up function of the fault module, the jump into an image, the calls of the ROM, the
-- caches and the USB stack in the bootloader, and the drivers, control laws, terminal, USB and host
-- program.
pub mod Base
pub mod Crc
pub mod Flash
pub mod Boot
pub mod Loader
pub mod Ota
pub mod Float
pub mod Can
pub mod Fault
pub mod Param
pub mod Cogging
