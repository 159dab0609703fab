-- ===== src/Realize.antt =====
-- How a device comes up: `ivshmem_ntb_idt_init`, `ivshmem_setup_interrupts`,
-- `ivshmem_common_realize` and `ivshmem_ntb_idt_realize`. About qemu_src/hw/misc/idt_ntb_ivshmem.c, lines 1479 to 1494, 1602 to
-- 1763 and 1855 to 1873.
pub mod Ports
pub mod Interrupts
pub mod Up
use ntb_cxl.Prelude.{
  ℕ, zero, suc, ◌+◌, Bool, true, false, ◌&&◌, not, Option, none, some, List, ◌==◌, if◌then◌else◌,
  is_nonzero, bit_and, bit_or, update,
}
use ntb_cxl.Prelude.Int.{minus_one}
use ntb_cxl.Device.{
  Outcome, ok, abort, fault, ◌>>=◌, BarConfig, OnOffAuto, auto, on, off, Machine, ShmStorage, Side,
  at_vm1, at_vm2, opposite, wiring_of, vm_at, set_vm, shl, emit, Effect, value_ntp_ntctl,
  value_nt_barsetup0, value_nt_barsetup_window,
}
use ntb_cxl.Lifecycle.{msix_vector_use, has_msi}
use ntb_cxl.Server.{Host, Reply, success, failure, resize_peers, Message, recv_setup}

-- `ivshmem_ntb_idt_init`, over the zeroed instance.
unfoldable pub instance_init : Machine → Machine
instance_init m = record m {
  dev = record (m.dev) { features = bit_or m.dev.features (shl 1 1); other_vm_id = minus_one };
}

-- The mask that is set at the start: messages, doorbell, switch events and three unused sources.
abbrev pub initial_int_mask : ℕ
initial_int_mask =
    bit_or (bit_or (bit_or (bit_or (bit_or 0x1 (shl 1 1)) (shl 1 3)) (shl 1 4)) (shl 1 5)) (shl 1 7)

abbrev pub side_of : ℕ → Side
side_of self_number = if self_number == 0 then at_vm1 else at_vm2

abbrev pub set_setup : ℕ → ℕ → (ℕ → BarConfig) → ℕ → BarConfig
set_setup i v bars = update bars i (record (bars i) { setup = v })

-- The loop that copies the own BAR configurations to the peer, at `i`.
unfoldable pub copy_bars : ℕ → ℕ → (ℕ → BarConfig) → (ℕ → BarConfig) → ℕ → BarConfig
copy_bars zero i own peer = peer
copy_bars (suc left) i own peer = copy_bars left (i + 1) own (update peer i (own i))

-- The own registers: NTCTL and the BAR setups of BAR 0 and the three windows.
unfoldable pub init_own : Side → ShmStorage → ShmStorage
init_own p sh =
    let vm = vm_at p sh in
    set_vm p
      (record vm {
        regs = record (vm.regs) { ntctl = value_ntp_ntctl };
        bar_config = set_setup 4 value_nt_barsetup_window (
            set_setup 3 value_nt_barsetup_window (
              set_setup 2 value_nt_barsetup_window (set_setup 0 value_nt_barsetup0 vm.bar_config)));
      })
      sh

-- The peer's BAR configurations, unless it has its own already.
unfoldable pub init_peer : Side → ShmStorage → ShmStorage
unfolding copy_bars
init_peer p sh =
    let peer = vm_at (opposite p) sh in
    if is_nonzero (peer.bar_config 0).setup
    then sh
    else set_vm (opposite p)
        (record peer { bar_config = copy_bars 6 0 (vm_at p sh).bar_config peer.bar_config }) sh

-- The last part of `ivshmem_common_realize`, from the pointers into the storage on.
unfoldable pub realize_registers : Machine → Machine
unfolding init_own init_peer
realize_registers m =
    let p = side_of m.dev.self_number in
    let masked = record (m.shm) {
      gregs = record (m.shm.gregs) { nt_int_mask = initial_int_mask };
    } in
    record m {
      dev = record (m.dev) { wiring = some (wiring_of p) };
      shm = init_peer p (init_own p masked);
    }

-- The results of the calls of QEMU's PCI and migration code: `msix_init_exclusive_bar`, `msi_init`
-- and `migrate_add_blocker`, true for success.
pub record PciCalls : Type 0 where
  pub msix_init_ok : Bool
  pub msi_init_ok : Bool
  pub add_blocker_ok : Bool

-- `ivshmem_setup_interrupts`. MSI-X gets BAR 1.
unfoldable pub setup_interrupts : PciCalls → Machine → Outcome Reply
setup_interrupts pci m =
    let m' = record m {
      dev = record (m.dev) {
        msi_vectors = some (λ _. record { has_pdev = false; virq = 0; unmasked = false });
      };
    } in
    if has_msi m
    then if pci.msix_init_ok
      then success (msix_vector_use (emit (Effect.init_msix m.dev.vectors 1) m'))
      else failure m'
    else success m'

abbrev pub is_on : OnOffAuto → Bool
is_on on = true
is_on off = false
is_on auto = false

abbrev pub resolve_master : OnOffAuto → ℕ → OnOffAuto
resolve_master on vm_id = on
resolve_master off vm_id = off
resolve_master auto vm_id = if vm_id == 0 then on else off

-- The last part of `ivshmem_common_realize`, from the choice of the role on.
unfoldable pub take_role : PciCalls → Machine → Outcome Reply
unfolding realize_registers
take_role pci m =
    let master = resolve_master m.dev.master m.dev.vm_id in
    let m' = record m { dev = record (m.dev) { master = master } } in
    if is_on master
    then success (realize_registers (emit Effect.register_ram m'))
    else if pci.add_blocker_ok
    then success (realize_registers (emit Effect.register_ram (emit Effect.add_blocker m')))
    else failure m'

-- The part after the set-up by the server.
unfoldable pub finish_realize : PciCalls → Machine → Outcome Reply
unfolding setup_interrupts take_role
finish_realize pci m =
    if is_on m.dev.master && not (m.dev.vm_id == 0)
    then failure m
    else (setup_interrupts pci (emit Effect.set_handlers m) >>= λ r.
        if r.failed
        then ok r
        else if pci.msi_init_ok
        then take_role pci (emit Effect.init_msi r.machine)
        else failure r.machine)

abbrev pub reg_bar_size : ℕ
reg_bar_size = 0x2000

abbrev pub bar_aperture_size : ℕ
bar_aperture_size = shl 1 20

-- The regions of `ivshmem_common_realize`: BAR 0 for the registers and three windows. That of BAR 5
-- is in a comment.
unfoldable pub register_bars : Machine → Machine
register_bars m = emit (Effect.register_bar 4 bar_aperture_size) (
    emit (Effect.register_bar 3 bar_aperture_size) (
      emit (Effect.register_bar 2 bar_aperture_size) (emit (Effect.register_bar 0 reg_bar_size) m)))

-- `ivshmem_common_realize`, with a chardev: `hostmem` is never set, for no property sets it.
unfoldable pub common_realize :
    Host → PciCalls → ℕ → List Message → Machine → Option (Outcome Reply)
unfolding finish_realize register_bars
common_realize host pci version messages m =
    if is_nonzero (bit_and m.dev.features 1) && not (has_msi m)
    then some (failure m)
    else elim (resize_peers 16 (register_bars (emit Effect.set_command m))) [
      | abort ↦ some abort
      | fault ↦ some fault
      | ok m' ↦ elim (recv_setup host version messages m') [
        | none ↦ none
        | some abort ↦ some abort
        | some fault ↦ some fault
        | some (ok r) ↦ if r.failed then some (ok r) else some (finish_realize pci r.machine)
      ]
    ]

-- `ivshmem_ntb_idt_realize`; `connected` is the result of `qemu_chr_fe_backend_connected`.
unfoldable pub ntb_idt_realize :
    (connected : Bool) → Host → PciCalls → ℕ → List Message → Machine → Option (Outcome Reply)
unfolding common_realize
ntb_idt_realize connected host pci version messages m =
    if connected then common_realize host pci version messages m else some (failure m)
