-- ===== src/System/Registers.antt =====
-- Every write to BAR 0 keeps the widths of the registers, and a window index that is in range.
-- About qemu_src/hw/misc/idt_ntb_ivshmem.c, lines 515 to 577 and 598 to 727.
use ntb_cxl.Prelude.{ℕ, ◌^◌, ◌<◌, arith, not64, u32, update, Option, some}
use ntb_cxl.Device.{
  WhenOk, BarConfig, SharedRegisters, ShmStorage, Side, Wiring, Machine, regs_at, vm_at, BarField,
  setup, limit, ltbase, utbase, ConfigRegister, GlobalRegister, gasadata, ntctl, ntmtbldata,
  ntintsts, ntintmsk, ntgsignal, outmsg, outdbellset, indbellsts, indbellmsk, msgsts, msgstsmsk,
  bar, oof_tpart, oof_ldata, oof_hdata, oof_llimit, oof_hlimit, swp0msgctl, segsigsts, register_at,
  global_registers,
}
use ntb_cxl.Dispatch.{IsRegister, io_write-cases}
use ntb_cxl.Mmio.{
  io_write, write_register, write_bar, set_bar_field, write_peer_bar, gas_write, write_gasadata,
  set_nt_mtb_data, put_regs,
}
use ntb_cxl.System.Widths.{
  IsSizedRegs, IsSizedBar, IsSized, set_vm-IsSized, set_regs-IsSized, bit_and-fits,
}
use ntb_cxl.System.Sized.{
  IsSizedAfter, set_control, set_globals-IsSized, doorbell-IsSized, signal-IsSized, outmsg-IsSized,
}

set_bar_field-IsSized :
    (f : BarField) (v : ℕ) (c : BarConfig) → IsSizedBar c → IsSizedBar (set_bar_field f (u32 v) c)
set_bar_field-IsSized setup v c h = ground arith
set_bar_field-IsSized limit v c h = ground arith
set_bar_field-IsSized ltbase v c h = ground arith
set_bar_field-IsSized utbase v c h = ground arith

write_bar-IsSized :
    (p : Side) (f : BarField) (i v : ℕ) (sh : ShmStorage)
    → IsSized sh
    → IsSized (write_bar p f i (u32 v) sh)
write_bar-IsSized p f i v sh s =
    set_vm-IsSized p _ sh s (record { regs = (s.vm p).regs; bars = bars })
  where
    bars :
        (j : ℕ)
        → IsSizedBar (
            update
              (vm_at p sh).bar_config
              i
              (set_bar_field f (u32 v) ((vm_at p sh).bar_config i))
              j)
    bars j =
        let new = set_bar_field-IsSized f v ((vm_at p sh).bar_config i) ((s.vm p).bars i) in
        let old = (s.vm p).bars j in ground (arith, new, old)

module _ (w : Wiring) (val : ℕ) (m : Machine) (s : IsSized m.shm) (small : val < 2 ^ 64) where
  peer_bar-IsSized : (f : BarField) → WhenOk (write_peer_bar w f val m) IsSizedAfter
  unfolding write_peer_bar
  peer_bar-IsSized f =
      let done = write_bar-IsSized w.peer_bar_config f m.dev.lregs.inbound_mw_bar val m.shm s in
      ground (arith, done)

  gas_write-IsSized : (o : Option GlobalRegister) → IsSizedAfter (gas_write o w val m)
  unfolding gas_write
  gas_write-IsSized (some (swp0msgctl i)) =
      set_regs-IsSized w.regs _ m.shm s (set_control i val ((s.vm w.regs).regs) small)
  gas_write-IsSized (some segsigsts) = set_globals-IsSized _ m.shm s (ground (arith, s.globals))
  gas_write-IsSized _ = s

  mtb-IsSized : IsSizedAfter (set_nt_mtb_data (u32 val) m)
  unfolding set_nt_mtb_data
  mtb-IsSized =
      let done =
        set_globals-IsSized (record (m.shm.gregs) { ntmtbl0 = u32 (u32 val) }) m.shm s
          (ground (arith, s.globals)) in
      ground (arith, done)

  -- A register of the device's own.
  put-IsSized : (r : SharedRegisters) → IsSizedRegs r → WhenOk (put_regs w m r) IsSizedAfter
  put-IsSized r h = set_regs-IsSized w.regs r m.shm s h

  write_register-IsSized :
      (r : ConfigRegister) → IsRegister r → WhenOk (write_register r w val m) IsSizedAfter
  unfolding write_register write_gasadata
  write_register-IsSized gasadata is =
      gas_write-IsSized (register_at global_registers m.dev.lregs.gasaaddr)
  write_register-IsSized ntctl is =
      let own = (s.vm w.regs).regs in put-IsSized _ (ground (arith, own))
  write_register-IsSized ntmtbldata is = mtb-IsSized
  write_register-IsSized ntintsts is =
      let own = (s.vm w.regs).regs in
      put-IsSized _ (ground (arith, own, bit_and-fits (regs_at w.regs m.shm).intsts (not64 val)))
  write_register-IsSized (outmsg i) is = outmsg-IsSized w i val m s is small
  write_register-IsSized outdbellset is = doorbell-IsSized w val m s
  write_register-IsSized indbellsts is =
      let own = (s.vm w.regs).regs in put-IsSized _ (ground (arith, own))
  write_register-IsSized indbellmsk is =
      let own = (s.vm w.regs).regs in put-IsSized _ (ground (arith, own))
  write_register-IsSized msgsts is =
      let own = (s.vm w.regs).regs in
      put-IsSized _ (ground (arith, own, bit_and-fits (regs_at w.regs m.shm).msgsts (not64 val)))
  write_register-IsSized msgstsmsk is =
      let own = (s.vm w.regs).regs in put-IsSized _ (ground (arith, own))
  write_register-IsSized ntgsignal is = signal-IsSized w val m s
  write_register-IsSized (bar f i) is = write_bar-IsSized w.bar_config f i val m.shm s
  write_register-IsSized oof_tpart is =
      let own = (s.vm w.regs).regs in put-IsSized _ (ground (arith, own))
  write_register-IsSized oof_ldata is = peer_bar-IsSized ltbase
  write_register-IsSized oof_hdata is = peer_bar-IsSized utbase
  write_register-IsSized oof_llimit is = peer_bar-IsSized limit
  write_register-IsSized oof_hlimit is = peer_bar-IsSized limit
  write_register-IsSized ntintmsk is = set_globals-IsSized _ m.shm s (ground (arith, s.globals))
  write_register-IsSized _ is = s

pub io_write-IsSized :
    (w : Wiring) (addr val : ℕ) (m : Machine)
    → IsSized m.shm
    → val < 2 ^ 64
    → WhenOk (io_write w addr val m) IsSizedAfter
io_write-IsSized w addr val m s small =
    io_write-cases (λ o. WhenOk o IsSizedAfter) w addr val m s
      (λ r is at. write_register-IsSized w val m s small r is)
