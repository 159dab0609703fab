-- ===== src/System/Widths.antt =====
-- Every register keeps to the width of its C type.
-- About qemu_src/hw/misc/idt_ntb_ivshmem.c, lines 109 to 139 and 421 to 727.
use ntb_cxl.Prelude.{ℕ, ◌^◌, ◌<◌, arith, bit_and, bit_or, update}
use ntb_cxl.Prelude.Bits.{bit_or-lt, bit_and-le}
use ntb_cxl.Device.{
  SharedRegisters, GlobalRegisters, BarConfig, VmShmStorage, ShmStorage, Side, at_vm1, at_vm2,
  set_regs, vm_at, set_vm,
}

-- The fields of `idt_shared_registers`, `idt_global_registers` and `BARConfig` fit.
pub record IsSizedRegs (r : SharedRegisters) : Type 0 where
  pub db : r.db < 2 ^ 32
  pub db_mask : r.db_mask < 2 ^ 32
  pub part : r.inbound_mw_part < 2 ^ 32
  pub ntctl : r.ntctl < 2 ^ 64
  pub msgsts : r.msgsts < 2 ^ 64
  pub msgsts_mask : r.msgsts_mask < 2 ^ 64
  pub intsts : r.intsts < 2 ^ 64
  pub msg : (i : ℕ) → r.msg i < 2 ^ 64
  pub control : (i : ℕ) → r.part0_msg_control i < 2 ^ 64
  pub source : (i : ℕ) → r.inb_msg_src i < 2 ^ 64

pub record IsSizedBar (c : BarConfig) : Type 0 where
  pub setup : c.setup < 2 ^ 32
  pub limit : c.limit < 2 ^ 32
  pub ltbase : c.ltbase < 2 ^ 32
  pub utbase : c.utbase < 2 ^ 32

pub record IsSizedGlobals (g : GlobalRegisters) : Type 0 where
  pub segsigsts : g.segsigsts < 2 ^ 32
  pub segsigmsk : g.segsigmsk < 2 ^ 32
  pub nt_int_mask : g.nt_int_mask < 2 ^ 32
  pub ntmtbl0 : g.ntmtbl0 < 2 ^ 32

pub record IsSizedVm (v : VmShmStorage) : Type 0 where
  pub regs : IsSizedRegs v.regs
  pub bars : (i : ℕ) → IsSizedBar (v.bar_config i)

pub record IsSized (sh : ShmStorage) : Type 0 where
  pub globals : IsSizedGlobals sh.gregs
  pub vm : (p : Side) → IsSizedVm (vm_at p sh)

pub set_vm-IsSized :
    (p : Side) (v : VmShmStorage) (sh : ShmStorage)
    → IsSized sh
    → IsSizedVm v
    → IsSized (set_vm p v sh)
set_vm-IsSized at_vm1 v sh h k = record { globals = h.globals; vm = vm }
  where
    vm : (p : Side) → IsSizedVm (vm_at p (set_vm at_vm1 v sh))
    vm at_vm1 = k
    vm at_vm2 = h.vm at_vm2
set_vm-IsSized at_vm2 v sh h k = record { globals = h.globals; vm = vm }
  where
    vm : (p : Side) → IsSizedVm (vm_at p (set_vm at_vm2 v sh))
    vm at_vm1 = h.vm at_vm1
    vm at_vm2 = k

pub set_regs-IsSized :
    (p : Side) (r : SharedRegisters) (sh : ShmStorage)
    → IsSized sh
    → IsSizedRegs r
    → IsSized (set_regs p r sh)
set_regs-IsSized p r sh h k =
    set_vm-IsSized p (record (vm_at p sh) { regs = r }) sh h
      (record { regs = k; bars = (h.vm p).bars })

pub update-lt :
    (f : ℕ → ℕ) (i v bound : ℕ)
    → v < bound
    → ((j : ℕ) → f j < bound)
    → (j : ℕ) → update f i v j < bound
update-lt f i v bound h k j = ground (arith, k j)

pub bit_or-fits : (x y : ℕ) → x < 2 ^ 64 → y < 2 ^ 64 → bit_or x y < 2 ^ 64
bit_or-fits x y = bit_or-lt 64 x y

pub bit_and-fits : (x y : ℕ) → x < 2 ^ 64 → bit_and x y < 2 ^ 64
bit_and-fits x y h = omega (arith, bit_and-le x x y)
