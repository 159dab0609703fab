-- ===== src/Lib.antt =====
-- The NTB device of ntb-cxl: a QEMU device that joins two virtual machines like an IDT
-- non-transparent bridge. All modelled code is in qemu_src/hw/misc/idt_ntb_ivshmem.c.
--
-- Each machine runs one device. The two devices share a memory (`ShmStorage`) with the global
-- registers and, for each machine, its id, its registers and its BAR configurations; an
-- ivshmem server hands each device that memory and the event descriptors of the other. A guest
-- works through BAR 0, the registers (`ivshmem_io_write`, `ivshmem_io_read`), and through BAR 2
-- to BAR 5, windows to the memory of the other machine (`idt_bar_write`, `idt_bar_read`). A
-- write that concerns the peer changes the peer's part of the shared memory and raises its
-- event; the peer's `ivshmem_vector_notify` then interrupts its guest.
--
-- Files:
--   Device/Registers: the enumerations: register maps, register values, event numbers.
--   Device/Results: `Outcome`: a return, a failed `assert`, or an access that C leaves undefined.
--   Device/State: `IVShmemState`, the shared memory, `Machine` (device, shared memory, effects so
--     far), and `interrupt_notify`. The pointers into the shared memory are sides of it (`Wiring`).
--   Mmio/Message: `write_outbound_msg`. Mmio/Gas: `get_gasadata`, `write_gasadata`,
--     `get_nt_mtb_data`, `set_nt_mtb_data`. Mmio/Access: `ivshmem_io_write`, `ivshmem_io_read`.
--   Dispatch: the switches as a map from addresses to registers; proofs about every write go by
--     its `io_write-cases`.
--   Messages, Messages/Mailbox: message registers, and the abstract mailboxes they implement.
--   Doorbell: OUTDBELLSET and the status registers that are cleared by writing ones.
--   Interrupt, Interrupt/Delivery: `init_vm_ids`, `ivshmem_vector_notify`, and runs that involve
--     both devices.
--   Isolation, Isolation/Silence: what a write to BAR 0 may touch, when it fails, and the mask.
--   Window/Memory: the interface to the peer's memory; Window/Bytes meets it. Window/Defs:
--     `map_peer_shm`, `idt_bar_read`, `idt_bar_write`; Window/Access: their behaviour.
--     Window/Setup: the writes to BAR 0 that set a window up, and the peer's accesses after them.
--   Server/Peers: `resize_peers`, `close_peer_eventfds`. Server/Process: `process_msg` and what it
--     calls. Server/Receive: `ivshmem_read`, `ivshmem_recv_setup`. Server/Chunks: the loop of
--     `ivshmem_recv_msg`. Server/Stream, Server/Tracking, Server/Table and Server/Answer: their
--     behaviour.
--   Realize: `ivshmem_ntb_idt_init`, `ivshmem_setup_interrupts`, `ivshmem_common_realize`,
--     `ivshmem_ntb_idt_realize`. Realize/Ports: the registers of a device that has come up.
--     Realize/Interrupts, Realize/Up: when it comes up and when it fails.
--   Callbacks: `ivshmem_vector_unmask`, `ivshmem_vector_mask` and `ivshmem_vector_poll`, and their
--     calls from inside `msix_set_vector_notifiers` (`Notifying`). Irqfd: `ivshmem_enable_irqfd` and
--     `ivshmem_remove_kvm_msi_virq`. Irqfd/Keep, Calls: what their loops and these calls keep.
--     Irqfd/Undo, Enable: routes after `ivshmem_enable_irqfd`. Irqfd/Disable: `ivshmem_disable_irqfd`.
--     Irqfd/Stale: one after the other. Irqfd/Vectors: polling, unmasking and masking.
--   Config: `ivshmem_write_config` and `ivshmem_read_config`; Config/Routes: MSI-X on and off.
--   Lifecycle: `ivshmem_reset`, `ivshmem_exit`, `ivshmem_pre_load`, `ivshmem_post_load`;
--     Lifecycle/Close, Exit: what the end of a device closes.
--   System: both devices over one shared memory, a step being a whole handler: a write of a guest to
--     BAR 0 or the delivery of an event. System/Widths, Sized, Registers: the widths of the
--     registers under each handler. System/Index: the window index. System/Pairing, System/Run: the
--     invariant and runs. System/Start: the exchange of ids before them. System/Kept, Mail, Post:
--     what becomes of a message during a run. The guests of a run keep to `IsAllowed`: 32-bit
--     writes, 1 for NTGSIGNAL, and the index of a BAR for IDT_OOF_LUTOFF.
--   Interleaving: the writes to BAR 0 that change what both machines read and write, as programs of
--     single accesses (`write_outbound_msg` is `send_program`). Interleaving/Exec: such a program
--     run at once. Interleaving/Race: two programs over one memory, a list of turns
--     saying whose access is next, and what a program keeps whatever the other does (`Respects`).
--     Interleaving/Own, Receiver, Sender, Stage, Publish: how a message appears to the other
--     machine. Interleaving/Partway, Lost: orders of accesses in which the receiver is misled.
--   Prelude: shared names, and the digits of numbers under `&`, `|` and `~`. Tests: runs.
--
-- Conventions. Registers are natural numbers; `u32` cuts to 32 bits where a value is stored in a
-- `uint32_t`, and `not32`, `not64` are `~` at the width of the operand. An array is a function of
-- the index; where the code's index is not a constant, the bound is tested and an access outside is
-- `fault`; `msi_vectors` is indexed below `nb_eventfds`, which is at
-- most its length, or by a vector of the device. Loops recurse
-- on the number of rounds left, or on the list of messages or reads, so no fuel is needed; `none`
-- of `ivshmem_recv_setup`, and `waiting` of `ivshmem_recv_msg`, is a wait for what has not been
-- sent. Effects are listed with the last one first.
--
-- Parameters: the results of KVM, MSI-X and system calls (`Host`, `PciCalls`, `MapCalls`,
-- `KvmCalls`, `MsixCalls`, `ExitCalls`), the calls that `msix_set_vector_notifiers` makes of the
-- device (`Notifying`; `IsOrderly` says that it unmasks and masks each vector at most once), the
-- peer's memory (`HostMemory`), the PCI requester id, the protocol version, and the results of
-- `event_notifier_test_and_clear` and of `qemu_chr_fe_backend_connected`.
--
-- Not modelled: debug output; calls of `ivshmem_vector_mask` by `msix_unset_vector_notifiers`, which
-- the source takes not to be made (MSI-X is off), and which a reset with MSI-X on would make;
-- the size argument of BAR 0, which its handlers ignore; the
-- configuration space that QEMU keeps; registration of types with QEMU; accesses that are
-- not atomic or that the two processes see in different orders: Interleaving takes each access of
-- the source as one step, in the order of the source, and of the handlers it cuts up only the writes
-- of `Handler`, while System takes whole handlers as steps; `examples/irq/msi`, the Yocto layer and
-- the scripts.
pub mod Prelude
pub mod Device
pub mod Mmio
pub mod Dispatch
pub mod Messages
pub mod Doorbell
pub mod Interrupt
pub mod Isolation
pub mod Window
pub mod Server
pub mod Realize
pub mod Callbacks
pub mod Irqfd
pub mod Config
pub mod Lifecycle
pub mod System
pub mod Interleaving
mod Tests
