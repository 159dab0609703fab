-- ===== src/Config.antt =====
-- Accesses to the configuration space: MSI-X switches the interrupt routes.
-- About qemu_src/hw/misc/idt_ntb_ivshmem.c, lines 1565 to 1600.
pub mod Routes
use ntb_cxl.Prelude.{ℕ, Bool, ◌&&◌, not, none, some, ◌==◌, if◌then◌else◌}
use ntb_cxl.Device.{Outcome, ok, fault, Machine, vm_at, bar, setup}
use ntb_cxl.Dispatch.{address}
use ntb_cxl.Server.{Host}
use ntb_cxl.Callbacks.{Notifying}
use ntb_cxl.Irqfd.{enable_irqfd}
use ntb_cxl.Irqfd.Disable.{disable_irqfd}

-- What the handler finds at a write: `msix_enabled` before and after `pci_default_write_config`,
-- the calls inside `msix_set_vector_notifiers`, whether a notifier is set, and the success of
-- `kvm_irqchip_remove_irqfd_notifier_gsi` by vector.
pub record MsixCalls : Type 0 where
  pub was_enabled : Bool
  pub is_enabled : Bool
  pub notifying : Notifying
  pub in_use : Bool
  pub remove_ok : ℕ → Bool

-- `ivshmem_write_config`; the configuration space itself is QEMU's.
unfoldable pub write_config : Host → MsixCalls → Machine → Outcome Machine
write_config host msix m =
    if not host.irqfd_enabled
    then ok m
    else if not msix.was_enabled && msix.is_enabled
    then enable_irqfd host msix.notifying m
    else if msix.was_enabled && not msix.is_enabled
    then disable_irqfd msix.in_use msix.remove_ok m
    else ok m

-- `ivshmem_read_config`; `found` is `pci_default_read_config`, by address.
unfoldable pub read_config : (ℕ → ℕ) → ℕ → Machine → Outcome ℕ
read_config found addr m =
    if not (addr == address (bar setup 0)) then ok (found addr) else elim m.dev.wiring [
      | none ↦ fault
      | some w ↦ ok (((vm_at w.bar_config m.shm).bar_config 0).setup)
    ]
