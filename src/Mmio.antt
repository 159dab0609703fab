-- ===== src/Mmio.antt =====
-- The handlers of BAR 0, the register file: `ivshmem_io_write`, `ivshmem_io_read` and what they
-- call. About qemu_src/hw/misc/idt_ntb_ivshmem.c, lines 421 to 577 and 598 to 825.
mod Message
mod Gas
mod Access
unfoldable pub use Message.*
unfoldable pub use Gas.*
unfoldable pub use Access.*
