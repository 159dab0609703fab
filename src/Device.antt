-- ===== src/Device.antt =====
-- The data of the device: its registers, its state and the effects of its handlers.
-- About qemu_src/hw/misc/idt_ntb_ivshmem.c, lines 98 to 419.
mod Results
mod Registers
mod State
unfoldable pub use Results.*
unfoldable pub use Registers.*
unfoldable pub use State.*
