-- ===== src/Isolation.antt =====
-- What a write to BAR 0 may touch, and when it goes through: every address, every value.
-- About qemu_src/hw/misc/idt_ntb_ivshmem.c, lines 421 to 463, 515 to 577 and 598 to 727.
pub mod Silence
use ntb_cxl.Prelude.{ℕ, ◌^◌, ◌≤◌, ◌<◌, ◌≡◌, ◌≢◌, refl, ap, ◌∙◌, arith, true, Option, some, u32}
use ntb_cxl.Prelude.Int.{pos, minus_one}
use ntb_cxl.Prelude.Bits.{bit}
use ntb_cxl.Prelude.Masks.{test_not32}
use ntb_cxl.Device.{
  abort, fault, ◌>>=◌, Returns, Machine, Side, at_vm1, at_vm2, opposite, wiring_of, Wiring, vm_at,
  regs_at, has_eventfd, bar_count, ConfigRegister, GlobalRegister, ntgsignal, outdbellset, outmsg,
  gasadata, ntmtbldata, oof_ldata, oof_hdata, oof_llimit, oof_hlimit, oof_lutoff, bar, BarField,
  setup, limit, ltbase, utbase, segsigsts, register_at, global_registers,
}
use ntb_cxl.Dispatch.{address, IsRegister, io_write-address, io_write-cases}
use ntb_cxl.Mmio.{
  write_register, io_write, write_outbound_msg, ring_doorbell, signal_global, write_peer_bar,
  gas_write, write_gasadata, set_nt_mtb_data,
}

-- From `m` to `m'`, in the eyes of machine `p`: of the peer's part the identity, the registers that
-- configure it and the BAR setups are as before, of the own part the identity, and of the device
-- everything but the local registers.
pub record IsFramed (p : Side) (m m' : Machine) : Type 0 where
  pub peer_id : (vm_at (opposite p) m'.shm).id ≡ (vm_at (opposite p) m.shm).id
  pub own_id : (vm_at p m'.shm).id ≡ (vm_at p m.shm).id
  pub ntctl : (regs_at (opposite p) m'.shm).ntctl ≡ (regs_at (opposite p) m.shm).ntctl
  pub db_mask : (regs_at (opposite p) m'.shm).db_mask ≡ (regs_at (opposite p) m.shm).db_mask
  pub msgsts_mask :
      (regs_at (opposite p) m'.shm).msgsts_mask ≡ (regs_at (opposite p) m.shm).msgsts_mask
  pub part :
      (regs_at (opposite p) m'.shm).inbound_mw_part ≡ (regs_at (opposite p) m.shm).inbound_mw_part
  pub control :
      (regs_at (opposite p) m'.shm).part0_msg_control
      ≡ (regs_at (opposite p) m.shm).part0_msg_control
  pub bar_setup :
      (i : ℕ)
      → ((vm_at (opposite p) m'.shm).bar_config i).setup
        ≡ ((vm_at (opposite p) m.shm).bar_config i).setup
  pub device : m'.dev ≡ record (m.dev) { lregs = m'.dev.lregs }

-- The device knows its peer, and the guest keeps to what the code takes for granted.
pub record IsConnected (q : ℕ) (m : Machine) : Type 0 where
  pub other : m.dev.other_vm_id ≡ pos q
  pub eventfd : has_eventfd m.dev q 1 ≡ true
  pub window : m.dev.lregs.inbound_mw_bar < bar_count

IsFramed-refl : (p : Side) (m : Machine) → IsFramed p m m
IsFramed-refl p m = record {
  peer_id = refl;
  own_id = refl;
  ntctl = refl;
  db_mask = refl;
  msgsts_mask = refl;
  part = refl;
  control = refl;
  bar_setup = λ i. refl;
  device = refl;
}

gas_write-IsFramed :
    (p : Side) (o : Option GlobalRegister) (val : ℕ) (m : Machine)
    → IsFramed p m (gas_write o (wiring_of p) val m)
unfolding gas_write
gas_write-IsFramed at_vm1 (some segsigsts) val m = ground arith
gas_write-IsFramed at_vm2 (some segsigsts) val m = ground arith
gas_write-IsFramed at_vm1 _ val m = ground arith
gas_write-IsFramed at_vm2 _ val m = ground arith

module _ (val q : ℕ) (m : Machine) (c : IsConnected q m) where
  outmsg-IsFramed :
      (p : Side) (i : ℕ) → Returns (write_outbound_msg (wiring_of p) i val m) (IsFramed p m)
  unfolding write_outbound_msg
  outmsg-IsFramed at_vm1 i = ground arith
  outmsg-IsFramed at_vm2 i = ground arith

  doorbell-IsFramed : (p : Side) → Returns (ring_doorbell (wiring_of p) val m) (IsFramed p m)
  unfolding ring_doorbell
  doorbell-IsFramed at_vm1 = ground arith
  doorbell-IsFramed at_vm2 = ground arith

  signal-IsFramed :
      (p : Side) → val ≡ 1 → Returns (signal_global (wiring_of p) val m) (IsFramed p m)
  unfolding signal_global
  signal-IsFramed at_vm1 one = ground arith
  signal-IsFramed at_vm2 one = ground arith

  peer_bar-IsFramed :
      (p : Side) (f : BarField)
      → f ≢ setup
      → Returns (write_peer_bar (wiring_of p) f val m) (IsFramed p m)
  unfolding write_peer_bar
  peer_bar-IsFramed p setup ne = absurd (ne refl)
  peer_bar-IsFramed at_vm1 limit ne = ground arith
  peer_bar-IsFramed at_vm1 ltbase ne = ground arith
  peer_bar-IsFramed at_vm1 utbase ne = ground arith
  peer_bar-IsFramed at_vm2 limit ne = ground arith
  peer_bar-IsFramed at_vm2 ltbase ne = ground arith
  peer_bar-IsFramed at_vm2 utbase ne = ground arith

  mtb-IsFramed : (p : Side) → IsFramed p m (set_nt_mtb_data val m)
  unfolding set_nt_mtb_data
  mtb-IsFramed at_vm1 = ground arith
  mtb-IsFramed at_vm2 = ground arith

  own_bar-IsFramed :
      (p : Side) (f : BarField) (i : ℕ)
      → Returns (write_register (bar f i) (wiring_of p) val m) (IsFramed p m)
  unfolding write_register
  own_bar-IsFramed at_vm1 f i = ground arith
  own_bar-IsFramed at_vm2 f i = ground arith

write_register-IsFramed :
    (p : Side) (r : ConfigRegister) (val q : ℕ) (m : Machine)
    → IsConnected q m
    → (r ≡ ntgsignal → val ≡ 1)
    → Returns (write_register r (wiring_of p) val m) (IsFramed p m)
unfolding write_register write_gasadata gas_write
write_register-IsFramed p (outmsg i) val q m c one = outmsg-IsFramed val q m c p i
write_register-IsFramed p outdbellset val q m c one = doorbell-IsFramed val q m c p
write_register-IsFramed p ntgsignal val q m c one = signal-IsFramed val q m c p (one refl)
write_register-IsFramed p oof_ldata val q m c one = peer_bar-IsFramed val q m c p ltbase (λ e. cc)
write_register-IsFramed p oof_hdata val q m c one = peer_bar-IsFramed val q m c p utbase (λ e. cc)
write_register-IsFramed p oof_llimit val q m c one = peer_bar-IsFramed val q m c p limit (λ e. cc)
write_register-IsFramed p oof_hlimit val q m c one = peer_bar-IsFramed val q m c p limit (λ e. cc)
write_register-IsFramed p (bar f i) val q m c one = own_bar-IsFramed val q m c p f i
write_register-IsFramed p ntmtbldata val q m c one = mtb-IsFramed (u32 val) q m c p
write_register-IsFramed p gasadata val q m c one =
    gas_write-IsFramed p (register_at global_registers m.dev.lregs.gasaaddr) val m
write_register-IsFramed at_vm1 _ val q m c one = ground arith
write_register-IsFramed at_vm2 _ val q m c one = ground arith

-- A connected device whose window index is in range takes every write to every address: nothing
-- is accessed out of bounds, and only NTGSIGNAL wants the value 1. Whatever the write does, the
-- peer's identity, mask and control registers and BAR setups stay as they were, and so does all
-- of the device but its local registers.
pub io_write-IsFramed :
    (p : Side) (addr val q : ℕ) (m : Machine)
    → IsConnected q m
    → (addr ≡ address ntgsignal → val ≡ 1)
    → Returns (io_write (wiring_of p) addr val m) (IsFramed p m)
io_write-IsFramed p addr val q m c one =
    io_write-cases (λ o. Returns o (IsFramed p m)) (wiring_of p) addr val m (IsFramed-refl p m)
      (λ r is at. write_register-IsFramed p r val q m c (λ e. one (at ∙ ap address e)))

through_window :
    (w : Wiring) (window val : ℕ) (m : Machine) (r : ConfigRegister) (f : BarField)
    → IsRegister r
    → ((n : Machine) → write_register r w val n ≡ write_peer_bar w f val n)
    → bar_count ≤ window
    → window < 2 ^ 32
    → (io_write w (address oof_lutoff) window m >>= io_write w (address r) val) ≡ fault
unfolding write_register write_peer_bar
through_window w window val m r f is same out fits =
    let moved = record m {
      dev = record (m.dev) { lregs = record (m.dev.lregs) { inbound_mw_bar = u32 window } };
    } in
    rw (io_write-address oof_lutoff w window m tt)
      (io_write-address r w val moved is ∙ (same moved ∙ ground arith))

-- The index is not checked when it is set: after a write of any value from 6 up to IDT_OOF_LUTOFF,
-- a write to IDT_OOF_LDATA, IDT_OOF_HDATA, IDT_OOF_LLIMIT or IDT_OOF_HLIMIT goes outside
-- `peer_bar_config`.
pub oof_lutoff-fault :
    (w : Wiring) (window val : ℕ) (m : Machine)
    → bar_count ≤ window
    → window < 2 ^ 32
    → ((io_write w (address oof_lutoff) window m >>= io_write w (address oof_ldata) val) ≡ fault)
      × ((io_write w (address oof_lutoff) window m >>= io_write w (address oof_hdata) val) ≡ fault)
      × ((io_write w (address oof_lutoff) window m >>= io_write w (address oof_llimit) val) ≡ fault)
      × ((io_write w (address oof_lutoff) window m >>= io_write w (address oof_hlimit) val) ≡ fault)
unfolding write_register
oof_lutoff-fault w window val m out fits = (
  through_window w window val m oof_ldata ltbase tt (λ n. refl) out fits,
  through_window w window val m oof_hdata utbase tt (λ n. refl) out fits,
  through_window w window val m oof_llimit limit tt (λ n. refl) out fits,
  through_window w window val m oof_hlimit limit tt (λ n. refl) out fits,
)

-- A write of any value but 1 to NTGSIGNAL ends the emulator by its assertion.
pub ntgsignal-abort :
    (w : Wiring) (val : ℕ) (m : Machine) → val ≢ 1 → io_write w (address ntgsignal) val m ≡ abort
unfolding write_register signal_global
ntgsignal-abort w val m ne = rw (io_write-address ntgsignal w val m tt) (ground arith)

-- A write of 1 to NTGSIGNAL before a peer is known, with switch events let through by the global
-- mask, indexes `peers` by -1: unlike the doorbell and the messages it does not test for a peer.
pub ntgsignal-fault :
    (w : Wiring) (m : Machine)
    → m.dev.other_vm_id ≡ minus_one
    → m.shm.gregs.nt_int_mask < 2 ^ 32
    → bit m.shm.gregs.nt_int_mask 3 ≡ 0
    → io_write w (address ntgsignal) 1 m ≡ fault
unfolding write_register signal_global
ntgsignal-fault w m alone fit open_mask =
    rw (io_write-address ntgsignal w 1 m tt) (ground (arith, test_not32 m.shm.gregs.nt_int_mask 3))
