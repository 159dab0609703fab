-- ===== src/Irqfd.antt =====
-- Interrupt routes of KVM for the device's vectors: `ivshmem_remove_kvm_msi_virq` and
-- `ivshmem_enable_irqfd` with its undo loop.
-- About qemu_src/hw/misc/idt_ntb_ivshmem.c, lines 1496 to 1538.
pub mod Keep
pub mod Calls
pub mod Undo
pub mod Enable
pub mod Stale
pub mod Disable
pub mod Vectors
use ntb_cxl.Prelude.{ℕ, zero, suc, false, none, some, ltb, if◌then◌else◌, update}
use ntb_cxl.Device.{Outcome, ok, fault, ◌>>=◌, Machine, emit, Effect, release_virq}
use ntb_cxl.Callbacks.{Notifying, set_vector_notifiers}
use ntb_cxl.Server.{Host, Reply, add_kvm_msi_virq}

-- `ivshmem_remove_kvm_msi_virq`.
unfoldable pub remove_kvm_msi_virq : ℕ → Machine → Outcome Machine
remove_kvm_msi_virq vector m = elim m.dev.msi_vectors [
  | none ↦ fault
  | some vs ↦
      if (vs vector).has_pdev
      then ok (
          emit (release_virq (vs vector).virq) (record m {
            dev = record (m.dev) {
              msi_vectors = some (update vs vector (record (vs vector) { has_pdev = false }));
            };
          }))
      else ok m
]

-- The loop behind `undo`, with so many vectors left, the last one first.
unfoldable pub undo_routes : ℕ → Machine → Outcome Machine
undo_routes zero m = ok m
undo_routes (suc i) m = remove_kvm_msi_virq i m >>= undo_routes i

-- The first loop, at `i` with so many vectors left: the index at which it ends, and whether by an
-- error.
unfoldable pub add_routes : Host → ℕ → ℕ → Machine → Outcome (ℕ × Reply)
add_routes host zero i m = ok (i, record { failed = false; machine = m })
add_routes host (suc left) i m = add_kvm_msi_virq host i m >>= λ r.
    if r.failed then ok (i, r) else add_routes host left (suc i) r.machine

-- What follows the loop.
unfoldable pub finish_routes : Notifying → ℕ × Reply → Outcome Machine
finish_routes notifying (i, r) =
    if r.failed
    then undo_routes i r.machine
    else (set_vector_notifiers notifying r.machine >>= λ q.
        if q.failed then undo_routes i (emit Effect.error q.machine) else ok q.machine)

-- `ivshmem_enable_irqfd`.
unfoldable pub enable_irqfd : Host → Notifying → Machine → Outcome Machine
enable_irqfd host notifying m =
    if ltb m.dev.vm_id m.dev.nb_peers
    then add_routes host (m.dev.peers m.dev.vm_id).nb_eventfds 0 m >>= finish_routes notifying
    else fault
