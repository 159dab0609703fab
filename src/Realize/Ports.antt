-- ===== src/Realize/Ports.antt =====
-- What stands in the registers once a device is up, and what both machines see of each other's
-- ports. About qemu_src/hw/misc/idt_ntb_ivshmem.c, lines 465 to 513 and 1709 to 1762.
use ntb_cxl.Prelude.{
  ℕ, zero, suc, ◌+◌, ◌*◌, ◌<◌, ◌≡◌, refl, ap, sym, ◌∙◌, arith, ◌&&◌, ltb, leb, ◌==◌, if◌then◌else◌,
  some, update, is_nonzero,
}
use ntb_cxl.Prelude.Bits.{bit}
use ntb_cxl.Device.{
  BarConfig, Machine, ShmStorage, IvShmemState, Side, at_vm1, at_vm2, opposite, wiring_of, vm_at,
  register_at, global_registers, ntp0_barsetup, ntp2_barsetup, bar, setup, gasadata, bar_count,
  value_nt_barsetup0, value_nt_barsetup_window,
}
use ntb_cxl.Dispatch.{address, io_read-address}
use ntb_cxl.Mmio.{io_read, read_register, get_gasadata, gas_read}
use ntb_cxl.Realize.{side_of, copy_bars, init_own, init_peer, realize_registers, initial_int_mask}

copy_bars_lem :
    (left start : ℕ) (own peer : ℕ → BarConfig) (i : ℕ)
    → copy_bars left start own peer i
      ≡ (if leb start i && ltb i (start + left) then own i else peer i)
unfolding copy_bars
copy_bars_lem zero start own peer i = ground arith
copy_bars_lem (suc left) start own peer i =
    ground (arith, copy_bars_lem left (start + 1) own (update peer start (own start)) i)

-- The storage after a device of side `p` has come up over `sh`, at BAR `i`: messages, doorbell and
-- switch events are masked; BAR 0 and the windows 2, 3 and 4 have their setups; and the peer's BAR
-- is a copy of the own one if the peer's BAR 0 had no setup, and untouched otherwise.
pub record IsRealized (p : Side) (i : ℕ) (sh sh' : ShmStorage) : Type 0 where
  pub messages : bit sh'.gregs.nt_int_mask 0 ≡ 1
  pub doorbell : bit sh'.gregs.nt_int_mask 1 ≡ 1
  pub events : bit sh'.gregs.nt_int_mask 3 ≡ 1
  pub own : ((vm_at p sh').bar_config i).setup ≡ (
      if i == 0
      then value_nt_barsetup0
      else if leb 2 i && leb i 4
      then value_nt_barsetup_window
      else ((vm_at p sh).bar_config i).setup)
  pub peer : (vm_at (opposite p) sh').bar_config i ≡ (
      if is_nonzero ((vm_at (opposite p) sh).bar_config 0).setup
      then (vm_at (opposite p) sh).bar_config i
      else (vm_at p sh').bar_config i)

-- The mask of `ivshmem_common_realize`.
abbrev masked : ShmStorage → ShmStorage
masked sh = record sh { gregs = record (sh.gregs) { nt_int_mask = initial_int_mask } }

realized :
    (p : Side) (i : ℕ) (sh : ShmStorage)
    → i < bar_count
    → IsRealized p i sh (init_peer p (init_own p (masked sh)))
unfolding init_own init_peer bit
realized at_vm1 i sh lt =
    ground
      (arith, copy_bars_lem 6 0 (init_own at_vm1 (masked sh)).vm1.bar_config sh.vm2.bar_config i)
realized at_vm2 i sh lt =
    ground
      (arith, copy_bars_lem 6 0 (init_own at_vm2 (masked sh)).vm2.bar_config sh.vm1.bar_config i)

-- When a device has come up, its pointers are those of its side, and the storage is that of
-- `IsRealized` at every BAR. The interrupt mask is set whatever it was before, so the second
-- machine to come up masks the interrupts that the first has let through.
pub realize_registers-IsRealized :
    (m : Machine) (i : ℕ)
    → i < bar_count
    → ((realize_registers m).dev.wiring ≡ some (wiring_of (side_of m.dev.self_number)))
      × IsRealized (side_of m.dev.self_number) i m.shm (realize_registers m).shm
unfolding realize_registers
realize_registers-IsRealized m i lt = (refl, realized (side_of m.dev.self_number) i m.shm lt)

barsetup-register :
    (i : ℕ)
    → i < bar_count
    → (register_at global_registers (0x1470 + 16 * i) ≡ some (ntp0_barsetup i))
      × (register_at global_registers (0x5470 + 16 * i) ≡ some (ntp2_barsetup i))
unfolding register_at global_registers
barsetup-register zero lt = (refl, refl)
barsetup-register (suc zero) lt = (refl, refl)
barsetup-register (suc (suc zero)) lt = (refl, refl)
barsetup-register (suc (suc (suc zero))) lt = (refl, refl)
barsetup-register (suc (suc (suc (suc zero)))) lt = (refl, refl)
barsetup-register (suc (suc (suc (suc (suc zero))))) lt = (refl, refl)
barsetup-register (suc (suc (suc (suc (suc (suc i)))))) lt = absurd (omega arith)

-- The address of BARSETUP0 of a machine's port, port 0 or port 2, in the global space.
abbrev pub port_barsetup : Side → ℕ
port_barsetup at_vm1 = 0x1470
port_barsetup at_vm2 = 0x5470

-- Both machines see one and the same port: what machine `p` reads through GASADATA as BARSETUPi of
-- the port of machine `q` is what `q` reads from its own BARSETUPi.
gasadata-barsetup :
    (p q : Side) (i requester : ℕ) (d d' : IvShmemState) (sh : ShmStorage)
    → i < bar_count
    → d.lregs.gasaaddr ≡ port_barsetup q + 16 * i
    → io_read (wiring_of p) requester (address gasadata) d sh
      ≡ io_read (wiring_of q) requester (address (bar setup i)) d' sh
unfolding read_register get_gasadata gas_read
gasadata-barsetup p q i requester d d' sh lt at =
    io_read-address gasadata (wiring_of p) requester d sh tt
    ∙ (through q at ∙ sym (io_read-address (bar setup i) (wiring_of q) requester d' sh lt))
  where
    through :
        (q : Side)
        → d.lregs.gasaaddr ≡ port_barsetup q + 16 * i
        → read_register gasadata (wiring_of p) requester d sh
          ≡ read_register (bar setup i) (wiring_of q) requester d' sh
    through at_vm1 at =
        ap (λ o. gas_read o sh) (ap (register_at global_registers) at ∙ (barsetup-register i lt).0)
    through at_vm2 at =
        ap (λ o. gas_read o sh) (ap (register_at global_registers) at ∙ (barsetup-register i lt).1)
