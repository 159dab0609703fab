-- ===== src/Isolation/Silence.antt =====
-- What a fully masked interrupt mask keeps back. About qemu_src/hw/misc/idt_ntb_ivshmem.c, lines
-- 421 to 463 and 598 to 727.
use ntb_cxl.Prelude.{ℕ, ◌^◌, ◌<◌, ◌≡◌, refl, ap, ◌∙◌, arith, Option, some}
use ntb_cxl.Prelude.Bits.{bit}
use ntb_cxl.Prelude.Masks.{test_not32}
use ntb_cxl.Device.{
  Returns, Machine, Wiring, bar_count, ConfigRegister, ntgsignal, outdbellset, outmsg, oof_ldata,
  oof_hdata, oof_llimit, oof_hlimit, BarField, ltbase, utbase, limit, gasadata, ntmtbldata,
  register_at, global_registers, GlobalRegister, segsigsts,
}
use ntb_cxl.Dispatch.{address, IsRegister, io_write-cases}
use ntb_cxl.Mmio.{
  write_register, io_write, write_outbound_msg, ring_doorbell, signal_global, write_peer_bar,
  write_gasadata, gas_write, set_nt_mtb_data,
}

-- The global mask covers messages, doorbell and switch events, as it does when a device comes up.
pub record IsMasked (m : Machine) : Type 0 where
  pub width : m.shm.gregs.nt_int_mask < 2 ^ 32
  pub messages : bit m.shm.gregs.nt_int_mask 0 ≡ 1
  pub doorbell : bit m.shm.gregs.nt_int_mask 1 ≡ 1
  pub events : bit m.shm.gregs.nt_int_mask 3 ≡ 1

abbrev pub IsSilent : Machine → Machine → Type 0
IsSilent m m' = m'.effects ≡ m.effects

gas_write-IsSilent :
    (o : Option GlobalRegister) (w : Wiring) (val : ℕ) (m : Machine)
    → IsSilent m (gas_write o w val m)
unfolding gas_write
gas_write-IsSilent (some segsigsts) w val m = refl
gas_write-IsSilent _ w val m = refl

module _ (w : Wiring) (val : ℕ) (m : Machine) (k : IsMasked m) where
  outmsg-IsSilent : (i : ℕ) → i < 4 → Returns (write_outbound_msg w i val m) (IsSilent m)
  unfolding write_outbound_msg
  outmsg-IsSilent i lt = ground (arith, test_not32 m.shm.gregs.nt_int_mask 0)

  doorbell-IsSilent : Returns (ring_doorbell w val m) (IsSilent m)
  unfolding ring_doorbell
  doorbell-IsSilent = ground (arith, test_not32 m.shm.gregs.nt_int_mask 1)

  signal-IsSilent : val ≡ 1 → Returns (signal_global w val m) (IsSilent m)
  unfolding signal_global
  signal-IsSilent one = ground (arith, test_not32 m.shm.gregs.nt_int_mask 3)

peer_bar-IsSilent :
    (f : BarField) (w : Wiring) (val : ℕ) (m : Machine)
    → m.dev.lregs.inbound_mw_bar < bar_count
    → Returns (write_peer_bar w f val m) (IsSilent m)
unfolding write_peer_bar
peer_bar-IsSilent f w val m lt = ground arith

mtb-IsSilent : (val : ℕ) (m : Machine) → IsSilent m (set_nt_mtb_data val m)
unfolding set_nt_mtb_data
mtb-IsSilent val m = ground arith

write_register-IsSilent :
    (r : ConfigRegister) (w : Wiring) (val : ℕ) (m : Machine)
    → IsRegister r
    → IsMasked m
    → m.dev.lregs.inbound_mw_bar < bar_count
    → (r ≡ ntgsignal → val ≡ 1)
    → Returns (write_register r w val m) (IsSilent m)
unfolding write_register write_gasadata gas_write
write_register-IsSilent (outmsg i) w val m is k lt one = outmsg-IsSilent w val m k i is
write_register-IsSilent outdbellset w val m is k lt one = doorbell-IsSilent w val m k
write_register-IsSilent ntgsignal w val m is k lt one = signal-IsSilent w val m k (one refl)
write_register-IsSilent oof_ldata w val m is k lt one = peer_bar-IsSilent ltbase w val m lt
write_register-IsSilent oof_hdata w val m is k lt one = peer_bar-IsSilent utbase w val m lt
write_register-IsSilent oof_llimit w val m is k lt one = peer_bar-IsSilent limit w val m lt
write_register-IsSilent oof_hlimit w val m is k lt one = peer_bar-IsSilent limit w val m lt
write_register-IsSilent ntmtbldata w val m is k lt one = mtb-IsSilent _ m
write_register-IsSilent gasadata w val m is k lt one =
    gas_write-IsSilent (register_at global_registers m.dev.lregs.gasaaddr) w val m
write_register-IsSilent _ w val m is k lt one = refl

-- While the global mask covers messages, doorbell and switch events, a write of any value to any
-- address raises no event and no interrupt, whether or not a peer is known. The window index is in
-- range, and NTGSIGNAL is written with 1.
pub io_write-IsSilent :
    (w : Wiring) (addr val : ℕ) (m : Machine)
    → IsMasked m
    → m.dev.lregs.inbound_mw_bar < bar_count
    → (addr ≡ address ntgsignal → val ≡ 1)
    → Returns (io_write w addr val m) (IsSilent m)
io_write-IsSilent w addr val m k lt one =
    io_write-cases (λ o. Returns o (IsSilent m)) w addr val m refl
      (λ r is at. write_register-IsSilent r w val m is k lt (λ e. one (at ∙ ap address e)))
