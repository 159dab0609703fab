-- ===== src/Realize/Interrupts.antt =====
-- What `ivshmem_setup_interrupts` keeps.
-- About qemu_src/hw/misc/idt_ntb_ivshmem.c, lines 1456 to 1464 and 1479 to 1494.
use ntb_cxl.Prelude.{
  ℕ, zero, suc, ◌+◌, ◌≡◌, refl, ap, Bool, true, false, ◌&&◌, not, if◌then◌else◌, some,
}
use ntb_cxl.Device.{Returns, Machine, emit, Effect}
use ntb_cxl.Server.{success, failure}
use ntb_cxl.Lifecycle.{use_vectors, has_msi}
use ntb_cxl.Realize.{PciCalls, setup_interrupts, resolve_master}

use_vectors_lem :
    (left i : ℕ) (m : Machine)
    → ((use_vectors left i m).dev ≡ m.dev) × ((use_vectors left i m).shm ≡ m.shm)
unfolding use_vectors
use_vectors_lem zero i m = (refl, refl)
use_vectors_lem (suc left) i m = use_vectors_lem left (i + 1) (emit (Effect.use_vector i) m)

-- What the rest of the handler reads is as it was.
abbrev pub IsAlike : Machine → Machine → Type 0
IsAlike m m' =
    (m'.shm ≡ m.shm)
    × (m'.dev.self_number ≡ m.dev.self_number)
    × (resolve_master m'.dev.master m'.dev.vm_id ≡ resolve_master m.dev.master m.dev.vm_id)

pub setup_interrupts-IsAlike :
    (pci : PciCalls) (m : Machine)
    → Returns
        (setup_interrupts pci m)
        λ r. (r.failed ≡ (has_msi m && not pci.msix_init_ok)) × IsAlike m r.machine
unfolding setup_interrupts
setup_interrupts-IsAlike pci m = go (has_msi m) pci.msix_init_ok
  where
    allocated : Machine
    allocated = record m {
      dev = record (m.dev) {
        msi_vectors = some (λ _. record { has_pdev = false; virq = 0; unmasked = false });
      };
    }

    go :
        (b c : Bool)
        → Returns
            (if b
              then if c
                then success (
                    use_vectors m.dev.vectors 0 (emit (Effect.init_msix m.dev.vectors 1) allocated))
                else failure allocated
              else success allocated)
            (λ r. (r.failed ≡ (b && not c)) × IsAlike m r.machine)
    go true true =
        let same =
          use_vectors_lem m.dev.vectors 0 (emit (Effect.init_msix m.dev.vectors 1) allocated) in
        (
          refl,
          (
            same.1,
            ap (λ d. d.self_number) same.0,
            ap (λ d. resolve_master d.master d.vm_id) same.0,
          ),
        )
    go true false = (refl, (refl, refl, refl))
    go false c = (refl, (refl, refl, refl))
