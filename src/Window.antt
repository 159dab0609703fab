-- ===== src/Window.antt =====
-- The memory windows: `map_peer_shm`, `idt_bar_read` and `idt_bar_write`, over an interface to the
-- peer's memory. About qemu_src/hw/misc/idt_ntb_ivshmem.c, lines 837 to 987.
pub mod Memory
pub mod Bytes
mod Defs
pub mod Access
pub mod Setup
unfoldable pub use Defs.*
