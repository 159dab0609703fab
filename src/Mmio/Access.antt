-- ===== src/Mmio/Access.antt =====
-- `ivshmem_io_write` and `ivshmem_io_read`: one clause for each case of the switches.
-- About qemu_src/hw/misc/idt_ntb_ivshmem.c, lines 598 to 825.
use ntb_cxl.Prelude.{
  ℕ, bit_and, bit_or, Option, none, some, ltb, ◌==◌, if◌then◌else◌, is_nonzero, u32, not32, not64,
  update,
}
use ntb_cxl.Prelude.Int.{is_minus_one}
use ntb_cxl.Device.{
  ConfigRegister, pcicmdsts, pcielcap, pcielctlsts, ntctl, ntintsts, ntintmsk, ntgsignal,
  outdbellset, indbellsts, indbellmsk, msgsts, msgstsmsk, ntmtbladdr, ntmtbldata, reqidcap,
  gasaaddr, gasadata, outmsg, inmsg, inmsgsrc, bar, oof_tpart, oof_lutoff, oof_ldata, oof_hdata,
  oof_llimit, oof_hlimit, BarField, setup, limit, ltbase, utbase, register_at, config_registers,
  value_nt_pcielcap_vm1, value_nt_pcielcap_vm2, value_nt_pcielctlsts, value_nt_pcicmdsts,
  ntintsts_dbell, ntintsts_sevent, eventfd_interrupt_host,
}
use ntb_cxl.Device.{
  Outcome, ok, abort, fault, BarConfig, SharedRegisters, LocalRegisters, ShmStorage, Side, Wiring,
  IvShmemState, Machine, vm_at, regs_at, set_vm, set_regs, bar_count, notify_other,
}
use ntb_cxl.Mmio.Message.{write_outbound_msg}
use ntb_cxl.Mmio.Gas.{get_gasadata, write_gasadata, get_nt_mtb_data, set_nt_mtb_data}

-- The BAR registers of one machine.
abbrev pub bar_field : BarField → BarConfig → ℕ
bar_field setup c = c.setup
bar_field limit c = c.limit
bar_field ltbase c = c.ltbase
bar_field utbase c = c.utbase

abbrev pub set_bar_field : BarField → ℕ → BarConfig → BarConfig
set_bar_field setup v c = record c { setup = v }
set_bar_field limit v c = record c { limit = v }
set_bar_field ltbase v c = record c { ltbase = v }
set_bar_field utbase v c = record c { utbase = v }

abbrev pub write_bar : Side → BarField → ℕ → ℕ → ShmStorage → ShmStorage
write_bar p f i v sh =
    let vm = vm_at p sh in
    set_vm p
      (record vm { bar_config = update vm.bar_config i (set_bar_field f v (vm.bar_config i)) }) sh

-- A write into the device's own shared registers, and into its local ones.
abbrev pub put_regs : Wiring → Machine → SharedRegisters → Outcome Machine
put_regs w m r = ok (record m { shm = set_regs w.regs r m.shm })

abbrev pub put_lregs : Machine → LocalRegisters → Outcome Machine
put_lregs m l = ok (record m { dev = record (m.dev) { lregs = l } })

-- The cases of OUTDBELLSET and NTGSIGNAL.
unfoldable pub ring_doorbell : Wiring → ℕ → Machine → Outcome Machine
unfolding notify_other
ring_doorbell w val m =
    let rung = record (regs_at w.peer_regs m.shm) { db = u32 val } in
    if is_minus_one m.dev.other_vm_id
    then ok (record m { shm = set_regs w.peer_regs rung m.shm })
    else if is_nonzero (bit_and (not32 m.shm.gregs.nt_int_mask) ntintsts_dbell)
    then notify_other eventfd_interrupt_host (record m {
      shm = set_regs w.peer_regs (record rung { intsts = bit_or rung.intsts ntintsts_dbell }) m.shm;
    })
    else ok (record m { shm = set_regs w.peer_regs rung m.shm })

unfoldable pub signal_global : Wiring → ℕ → Machine → Outcome Machine
unfolding notify_other
signal_global w val m =
    let g = m.shm.gregs in
    let sh = record (m.shm) { gregs = record g { segsigsts = bit_or g.segsigsts 1 } } in
    let peer = regs_at w.peer_regs sh in
    if val == 1
    then if is_nonzero (bit_and (not32 g.nt_int_mask) ntintsts_sevent)
      then notify_other eventfd_interrupt_host (record m {
        shm = set_regs w.peer_regs (record peer { intsts = bit_or peer.intsts ntintsts_sevent }) sh;
      })
      else ok (record m { shm = sh })
    else abort

-- `peer_bar_config[inbound_mw_bar]`: the index is whatever the guest wrote to IDT_OOF_LUTOFF.
unfoldable pub write_peer_bar : Wiring → BarField → ℕ → Machine → Outcome Machine
write_peer_bar w f val m =
    if ltb m.dev.lregs.inbound_mw_bar bar_count
    then ok (record m {
      shm = write_bar w.peer_bar_config f m.dev.lregs.inbound_mw_bar (u32 val) m.shm;
    })
    else fault

unfoldable pub write_register : ConfigRegister → Wiring → ℕ → Machine → Outcome Machine
write_register gasaaddr w val m = put_lregs m (record (m.dev.lregs) { gasaaddr = val })
write_register gasadata w val m = ok (write_gasadata w val m)
write_register ntctl w val m = put_regs w m (record (regs_at w.regs m.shm) { ntctl = val })
write_register ntmtbladdr w val m =
    put_lregs m (record (m.dev.lregs) { nt_mtb_addr = bit_and val 0x7F })
write_register ntmtbldata w val m = ok (set_nt_mtb_data (u32 val) m)
write_register ntintsts w val m =
    let own = regs_at w.regs m.shm in
    put_regs w m (record own { intsts = bit_and own.intsts (not64 val) })
write_register (outmsg i) w val m = write_outbound_msg w i val m
write_register outdbellset w val m = ring_doorbell w val m
write_register indbellsts w val m =
    let own = regs_at w.regs m.shm in
    put_regs w m (record own { db = u32 (bit_and own.db (not64 val)) })
write_register indbellmsk w val m =
    put_regs w m (record (regs_at w.regs m.shm) { db_mask = u32 val })
write_register msgsts w val m =
    let own = regs_at w.regs m.shm in
    put_regs w m (record own { msgsts = bit_and own.msgsts (not64 val) })
write_register msgstsmsk w val m =
    put_regs w m (record (regs_at w.regs m.shm) { msgsts_mask = val })
write_register ntgsignal w val m = signal_global w val m
write_register (bar f i) w val m =
    ok (record m { shm = write_bar w.bar_config f i (u32 val) m.shm })
write_register oof_tpart w val m =
    put_regs w m (record (regs_at w.regs m.shm) { inbound_mw_part = u32 val })
write_register oof_lutoff w val m = put_lregs m (record (m.dev.lregs) { inbound_mw_bar = u32 val })
write_register oof_ldata w val m = write_peer_bar w ltbase val m
write_register oof_hdata w val m = write_peer_bar w utbase val m
write_register oof_llimit w val m = write_peer_bar w limit val m
write_register oof_hlimit w val m = write_peer_bar w limit val m
write_register ntintmsk w val m =
    ok
      (record m { shm = record (m.shm) { gregs = record (m.shm.gregs) { nt_int_mask = u32 val } } })
write_register _ w val m = ok m

unfoldable pub write_at : Option ConfigRegister → Wiring → ℕ → Machine → Outcome Machine
write_at (some r) w val m = write_register r w val m
write_at none w val m = ok m

-- `ivshmem_io_write`. `w` holds the pointers that `ivshmem_common_realize` has set.
unfoldable pub io_write : Wiring → ℕ → ℕ → Machine → Outcome Machine
unfolding write_at register_at config_registers
io_write w addr val m = write_at (register_at config_registers addr) w val m

-- `requester` is `pci_requester_id(&s->parent_obj)`.
unfoldable pub read_register : ConfigRegister → Wiring → ℕ → IvShmemState → ShmStorage → ℕ
read_register gasadata w requester d sh = get_gasadata d sh
read_register pcielcap w requester d sh =
    if d.self_number == 0 then value_nt_pcielcap_vm1 else value_nt_pcielcap_vm2
read_register pcielctlsts w requester d sh = value_nt_pcielctlsts
read_register pcicmdsts w requester d sh = value_nt_pcicmdsts
read_register ntctl w requester d sh = (regs_at w.regs sh).ntctl
read_register ntmtbldata w requester d sh = get_nt_mtb_data d sh
read_register ntintsts w requester d sh = (regs_at w.regs sh).intsts
read_register (inmsg i) w requester d sh = (regs_at w.regs sh).msg i
read_register (inmsgsrc i) w requester d sh = (regs_at w.regs sh).inb_msg_src i
read_register indbellsts w requester d sh = (regs_at w.regs sh).db
read_register indbellmsk w requester d sh = (regs_at w.regs sh).db_mask
read_register msgsts w requester d sh = (regs_at w.regs sh).msgsts
read_register msgstsmsk w requester d sh = (regs_at w.regs sh).msgsts_mask
read_register ntintmsk w requester d sh = sh.gregs.nt_int_mask
read_register reqidcap w requester d sh = requester
read_register (bar f i) w requester d sh = bar_field f ((vm_at w.bar_config sh).bar_config i)
read_register _ w requester d sh = 0

unfoldable pub read_at : Option ConfigRegister → Wiring → ℕ → IvShmemState → ShmStorage → ℕ
read_at (some r) w requester d sh = read_register r w requester d sh
read_at none w requester d sh = 0

-- `ivshmem_io_read`.
unfoldable pub io_read : Wiring → ℕ → ℕ → IvShmemState → ShmStorage → ℕ
unfolding read_at register_at config_registers
io_read w requester addr d sh = read_at (register_at config_registers addr) w requester d sh
