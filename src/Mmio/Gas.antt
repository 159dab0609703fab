-- ===== src/Mmio/Gas.antt =====
-- The global address space behind GASAADDR and GASADATA, and the NT mapping table.
-- About qemu_src/hw/misc/idt_ntb_ivshmem.c, lines 465 to 577.
use ntb_cxl.Prelude.{ℕ, zero, suc, bit_and, Option, some, u32, not64, update}
use ntb_cxl.Device.{
  GlobalRegister, ntp0_pciecmdsts, ntp0_ntctl, swport0sts, ntp2_pciecmdsts, ntp2_ntctl, swport2sts,
  swpart0sts, sests, ntp0_barsetup, ntp2_barsetup, swp0msgctl, segsigsts, value_swportsts,
  value_swpart0sts, value_ntp_pciecmdsts, register_at, global_registers, Wiring, Machine,
  ShmStorage, IvShmemState, regs_at, set_regs,
}

unfoldable pub gas_read : Option GlobalRegister → ShmStorage → ℕ
gas_read (some swport0sts) sh = value_swportsts
gas_read (some swport2sts) sh = value_swportsts
gas_read (some swpart0sts) sh = value_swpart0sts
gas_read (some ntp0_pciecmdsts) sh = value_ntp_pciecmdsts
gas_read (some ntp0_ntctl) sh = sh.vm1.regs.ntctl
gas_read (some ntp2_pciecmdsts) sh = value_ntp_pciecmdsts
gas_read (some ntp2_ntctl) sh = sh.vm2.regs.ntctl
gas_read (some sests) sh = 0
gas_read (some (ntp0_barsetup i)) sh = (sh.vm1.bar_config i).setup
gas_read (some (ntp2_barsetup i)) sh = (sh.vm2.bar_config i).setup
gas_read _ sh = 0

unfoldable pub get_gasadata : IvShmemState → ShmStorage → ℕ
unfolding gas_read register_at global_registers
get_gasadata d sh = gas_read (register_at global_registers d.lregs.gasaaddr) sh

unfoldable pub gas_write : Option GlobalRegister → Wiring → ℕ → Machine → Machine
gas_write (some (swp0msgctl i)) w val m =
    let own = regs_at w.regs m.shm in
    record m {
      shm =
          set_regs w.regs (record own { part0_msg_control = update own.part0_msg_control i val })
            m.shm;
    }
gas_write (some segsigsts) w val m =
    let g = m.shm.gregs in
    record m {
      shm = record (m.shm) {
        gregs = record g { segsigsts = u32 (bit_and g.segsigsts (not64 val)) };
      };
    }
gas_write _ w val m = m

unfoldable pub write_gasadata : Wiring → ℕ → Machine → Machine
unfolding gas_write register_at global_registers
write_gasadata w val m = gas_write (register_at global_registers m.dev.lregs.gasaaddr) w val m

-- `get_nt_mtb_data` and `set_nt_mtb_data`: only partition 0 has an entry.
mtb_read : ℕ → ShmStorage → ℕ
mtb_read zero sh = sh.gregs.ntmtbl0
mtb_read (suc _) sh = 0

unfoldable pub get_nt_mtb_data : IvShmemState → ShmStorage → ℕ
unfolding mtb_read
get_nt_mtb_data d sh = mtb_read d.lregs.nt_mtb_addr sh

mtb_write : ℕ → ℕ → Machine → Machine
mtb_write zero val m = record m {
  shm = record (m.shm) { gregs = record (m.shm.gregs) { ntmtbl0 = u32 val } };
}
mtb_write (suc _) val m = m

unfoldable pub set_nt_mtb_data : ℕ → Machine → Machine
unfolding mtb_write
set_nt_mtb_data val m = mtb_write m.dev.lregs.nt_mtb_addr val m
