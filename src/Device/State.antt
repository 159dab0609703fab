-- ===== src/Device/State.antt =====
-- The state of one device and the memory that two devices share.
-- About qemu_src/hw/misc/idt_ntb_ivshmem.c, lines 98 to 207 and 376 to 419.
use ntb_cxl.Prelude.{ℕ, Bool, false, ◌&&◌, Option, none, some, List, ◌∷◌, ltb, if◌then◌else◌}
use ntb_cxl.Prelude.Int.{ℤ, pos, negsuc}
use ntb_cxl.Device.Results.{Outcome, ok, fault}

-- `BARConfig`.
pub record BarConfig : Type 0 where
  pub setup : ℕ
  pub limit : ℕ
  pub ltbase : ℕ
  pub utbase : ℕ

-- `idt_global_registers`, 32 bits each.
pub record GlobalRegisters : Type 0 where
  pub segsigsts : ℕ
  pub segsigmsk : ℕ
  pub nt_int_mask : ℕ
  pub ntmtbl0 : ℕ

-- `idt_shared_registers`: the first three have 32 bits, the others 64; the arrays have four.
pub record SharedRegisters : Type 0 where
  pub db : ℕ
  pub db_mask : ℕ
  pub inbound_mw_part : ℕ
  pub ntctl : ℕ
  pub msgsts : ℕ
  pub msgsts_mask : ℕ
  pub msg : ℕ → ℕ
  pub intsts : ℕ
  pub part0_msg_control : ℕ → ℕ
  pub inb_msg_src : ℕ → ℕ

-- `idt_local_registers`.
pub record LocalRegisters : Type 0 where
  pub gasaaddr : ℕ
  pub nt_mtb_addr : ℕ
  pub inbound_mw_bar : ℕ

-- `idt_ivshmem_vm_shm_storage`; `bar_config` has `bar_count` entries.
pub record VmShmStorage : Type 0 where
  pub id : ℕ
  pub regs : SharedRegisters
  pub bar_config : ℕ → BarConfig

abbrev pub bar_count : ℕ
bar_count = 6

-- `idt_ivshmem_shm_storage`.
pub record ShmStorage : Type 0 where
  pub gregs : GlobalRegisters
  pub vm1 : VmShmStorage
  pub vm2 : VmShmStorage

-- A pointer into the storage: to the part of one of the two machines.
pub data Side : Type 0 where
  at_vm1 at_vm2 : Side

abbrev pub opposite : Side → Side
opposite at_vm1 = at_vm2
opposite at_vm2 = at_vm1

abbrev pub vm_at : Side → ShmStorage → VmShmStorage
vm_at at_vm1 sh = sh.vm1
vm_at at_vm2 sh = sh.vm2

abbrev pub regs_at : Side → ShmStorage → SharedRegisters
regs_at p sh = (vm_at p sh).regs

abbrev pub set_vm : Side → VmShmStorage → ShmStorage → ShmStorage
set_vm at_vm1 v sh = record sh { vm1 = v }
set_vm at_vm2 v sh = record sh { vm2 = v }

abbrev pub set_regs : Side → SharedRegisters → ShmStorage → ShmStorage
set_regs p r sh = set_vm p (record (vm_at p sh) { regs = r }) sh

-- The pointers of `IVShmemState` into the storage, which `ivshmem_common_realize` sets together.
pub record Wiring : Type 0 where
  pub vm_id_shared : Side
  pub other_vm_id_shared : Side
  pub regs : Side
  pub peer_regs : Side
  pub bar_config : Side
  pub peer_bar_config : Side

-- The two ways in which `ivshmem_common_realize` sets them.
abbrev pub wiring_of : Side → Wiring
wiring_of p = record {
  vm_id_shared = p;
  other_vm_id_shared = opposite p;
  regs = p;
  peer_regs = opposite p;
  bar_config = p;
  peer_bar_config = opposite p;
}

-- `Peer`. `eventfds` is an array of `vectors` entries, the descriptor of each; `none` is freed.
pub record Peer : Type 0 where
  pub nb_eventfds : ℕ
  pub eventfds : Option (ℕ → ℕ)

-- `MSIVector`; `has_pdev` is `pdev != NULL`.
pub record MsiVector : Type 0 where
  pub has_pdev : Bool
  pub virq : ℕ
  pub unmasked : Bool

pub data OnOffAuto : Type 0 where
  auto on off : OnOffAuto

-- `IVShmemState`. `peers` has `nb_peers` entries; `none` for a pointer is NULL. `vm_id` is an
-- `int` that only ever takes the values 0 to 65535. `bar_addr i` is `bars[i].addr`, and
-- `peer_mapped` is `peer_mem != NULL`.
pub record IvShmemState : Type 0 where
  pub features : ℕ
  pub has_bar2 : Bool
  pub bar_addr : ℕ → ℕ
  pub peers : ℕ → Peer
  pub nb_peers : ℕ
  pub vectors : ℕ
  pub msi_vectors : Option (ℕ → MsiVector)
  pub msg_buf : List ℕ
  pub master : OnOffAuto
  pub self_number : ℕ
  pub vm_id : ℕ
  pub other_vm_id : ℤ
  pub wiring : Option Wiring
  pub lregs : LocalRegisters
  pub peer_mapped : Bool

-- What a handler does to the world outside, each a call of a function of QEMU.
pub data Effect : Type 0 where
  -- `msi_notify(&s->parent_obj, vector)`
  msi : (vector : ℕ) → Effect
  -- `event_notifier_set` on the notifier of a peer, by position and vector
  event_set : (posn vector : ℕ) → Effect
  -- `event_notifier_init_fd`, `event_notifier_cleanup`
  event_init event_cleanup : (posn vector : ℕ) → Effect
  -- `qemu_set_fd_handler(…, ivshmem_vector_notify, …)`
  watch : (vector : ℕ) → Effect
  -- `kvm_irqchip_add_irqfd_notifier_gsi` for a vector of the device
  add_irqfd : (vector : ℕ) → Effect
  -- `kvm_irqchip_release_virq`
  release_virq : (virq : ℕ) → Effect
  -- `kvm_irqchip_remove_irqfd_notifier_gsi` for a vector of the device
  remove_irqfd : (vector : ℕ) → Effect
  -- `kvm_irqchip_update_msi_route` with the address and the data of the message, and
  -- `kvm_irqchip_commit_routes`
  update_route : (virq addr word : ℕ) → Effect
  commit_routes : Effect
  -- `msix_set_pending`, `msix_vector_use`, `msix_uninit_exclusive_bar`
  set_pending : (vector : ℕ) → Effect
  use_vector : (vector : ℕ) → Effect
  uninit_msix : Effect
  -- `migrate_del_blocker`, `munmap` with the length, `vmstate_unregister_ram`
  del_blocker : Effect
  unmap : (length : ℕ) → Effect
  unregister_ram : Effect
  -- `close(fd)`, and `error_setg`, `error_report` or `perror`
  close_fd : (fd : ℕ) → Effect
  error : Effect
  -- `memory_region_init_io` with the size of the region and `pci_register_bar`, for a BAR
  register_bar : (idx size : ℕ) → Effect
  -- `pci_conf[PCI_COMMAND] = PCI_COMMAND_IO | PCI_COMMAND_MEMORY`
  set_command : Effect
  -- `qemu_chr_fe_set_handlers` with `ivshmem_can_receive` and `ivshmem_read`
  set_handlers : Effect
  -- `msix_init_exclusive_bar` with the number of vectors and the BAR, and `msi_init`
  init_msix : (vectors idx : ℕ) → Effect
  init_msi : Effect
  -- `migrate_add_blocker`, `vmstate_register_ram`
  add_blocker : Effect
  register_ram : Effect
  -- `msix_set_vector_notifiers`, when it has returned, and whether with success;
  -- `msix_unset_vector_notifiers`
  set_notifiers : (accepted : Bool) → Effect
  unset_notifiers : Effect
  -- `event_notifier_test_and_clear` on the device's own notifier for a vector
  event_clear : (vector : ℕ) → Effect
  -- `g_free(s->peers)`
  free_peers : Effect

-- What a handler reads and changes: the device, the shared memory, and the effects so far, the
-- last one first.
pub record Machine : Type 0 where
  pub dev : IvShmemState
  pub shm : ShmStorage
  pub effects : List Effect

abbrev pub emit : Effect → Machine → Machine
emit e m = record m { effects = e ∷ m.effects }

-- `interrupt_notify`.
unfoldable pub interrupt_notify : ℕ → Machine → Machine
interrupt_notify vector m = emit (msi vector) m

-- `eventfds[vector]` of a peer can be read: the array is there and has this entry.
abbrev pub has_eventfd : IvShmemState → ℕ → ℕ → Bool
has_eventfd d posn vector =
    ltb posn d.nb_peers
    && elim ((d.peers posn).eventfds) [ none ↦ false | some _ ↦ ltb vector d.vectors ]

-- `event_notifier_set(&s->peers[s->other_vm_id].eventfds[vector])`.
unfoldable pub notify_other : ℕ → Machine → Outcome Machine
notify_other vector m = elim m.dev.other_vm_id [
  | pos p ↦ if has_eventfd m.dev p vector then ok (emit (event_set p vector) m) else fault
  | negsuc n ↦ fault
]
