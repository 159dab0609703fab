-- ===== src/Server.antt =====
-- The side that talks to the ivshmem server: peers come and go, and the memory arrives.
-- About qemu_src/hw/misc/idt_ntb_ivshmem.c, lines 1094 to 1381.
mod Peers
mod Process
mod Receive
pub mod Tracking
pub mod Stream
pub mod Table
pub mod Answer
pub mod Chunks
unfoldable pub use Peers.*
unfoldable pub use Process.*
unfoldable pub use Receive.*
