-- ===== src/System/Index.antt =====
-- The window index: only IDT_OOF_LUTOFF changes it.
-- About qemu_src/hw/misc/idt_ntb_ivshmem.c, lines 421 to 463 and 598 to 727.
use ntb_cxl.Prelude.{ℕ, ◌<◌, ◌≡◌, refl, ap, ◌∙◌, arith, u32, Option, some}
use ntb_cxl.Device.{
  WhenOk, Wiring, Machine, bar_count, BarField, ltbase, utbase, limit, ConfigRegister,
  GlobalRegister, gasadata, ntmtbldata, ntgsignal, outmsg, outdbellset, oof_lutoff, oof_ldata,
  oof_hdata, oof_llimit, oof_hlimit, segsigsts, register_at, global_registers,
}
use ntb_cxl.Dispatch.{address, io_write-cases}
use ntb_cxl.Mmio.{
  io_write, write_register, write_peer_bar, gas_write, write_gasadata, set_nt_mtb_data,
  ring_doorbell, signal_global, write_outbound_msg,
}

abbrev pub HasIndex : Machine → Type 0
HasIndex m = m.dev.lregs.inbound_mw_bar < bar_count

module _ (w : Wiring) (val : ℕ) (m : Machine) (h : HasIndex m) where
  peer_bar-HasIndex : (f : BarField) → WhenOk (write_peer_bar w f val m) HasIndex
  unfolding write_peer_bar
  peer_bar-HasIndex f = ground arith

  gas_write-HasIndex : (o : Option GlobalRegister) → HasIndex (gas_write o w val m)
  unfolding gas_write
  gas_write-HasIndex (some segsigsts) = h
  gas_write-HasIndex _ = h

  mtb-HasIndex : (v : ℕ) → HasIndex (set_nt_mtb_data v m)
  unfolding set_nt_mtb_data
  mtb-HasIndex v = ground arith

  doorbell-HasIndex : WhenOk (ring_doorbell w val m) HasIndex
  unfolding ring_doorbell
  doorbell-HasIndex = ground arith

  signal-HasIndex : WhenOk (signal_global w val m) HasIndex
  unfolding signal_global
  signal-HasIndex = ground arith

  outmsg-HasIndex : (i : ℕ) → WhenOk (write_outbound_msg w i val m) HasIndex
  unfolding write_outbound_msg
  outmsg-HasIndex i = ground arith

  write_register-HasIndex :
      (r : ConfigRegister)
      → (r ≡ oof_lutoff → val < bar_count)
      → WhenOk (write_register r w val m) HasIndex
  unfolding write_register write_gasadata
  write_register-HasIndex gasadata lt =
      gas_write-HasIndex (register_at global_registers m.dev.lregs.gasaaddr)
  write_register-HasIndex ntmtbldata lt = mtb-HasIndex (u32 val)
  write_register-HasIndex (outmsg i) lt = outmsg-HasIndex i
  write_register-HasIndex outdbellset lt = doorbell-HasIndex
  write_register-HasIndex ntgsignal lt = signal-HasIndex
  write_register-HasIndex oof_lutoff lt = ground (arith, lt refl)
  write_register-HasIndex oof_ldata lt = peer_bar-HasIndex ltbase
  write_register-HasIndex oof_hdata lt = peer_bar-HasIndex utbase
  write_register-HasIndex oof_llimit lt = peer_bar-HasIndex limit
  write_register-HasIndex oof_hlimit lt = peer_bar-HasIndex limit
  write_register-HasIndex _ lt = h

pub io_write-HasIndex :
    (w : Wiring) (addr val : ℕ) (m : Machine)
    → HasIndex m
    → (addr ≡ address oof_lutoff → val < bar_count)
    → WhenOk (io_write w addr val m) HasIndex
io_write-HasIndex w addr val m h lt =
    io_write-cases (λ o. WhenOk o HasIndex) w addr val m h
      (λ r is at. write_register-HasIndex w val m h r (λ e. lt (at ∙ ap address e)))
