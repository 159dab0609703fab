-- ===== src/System/Kept.antt =====
-- A message that lies in a machine's mailbox stays there until that machine acknowledges it.
-- About qemu_src/hw/misc/idt_ntb_ivshmem.c, lines 421 to 463 and 598 to 727.
use ntb_cxl.Prelude.{ℕ, ◌+◌, ◌<◌, ◌≡◌, arith, Option, some}
use ntb_cxl.Prelude.Bits.{bit}
use ntb_cxl.Prelude.Masks.{test_bit, set_bit_ne}
use ntb_cxl.Device.{
  WhenOk, SharedRegisters, Side, at_vm1, at_vm2, wiring_of, Machine, regs_at, BarField,
  GlobalRegister, segsigsts,
}
use ntb_cxl.Mmio.{
  write_outbound_msg, ring_doorbell, signal_global, write_peer_bar, gas_write, set_nt_mtb_data,
}

-- If place `j` of the mailboxes `r` is full, it holds the same message in `r'`.
abbrev pub IsKept : ℕ → SharedRegisters → SharedRegisters → Type 0
IsKept j r r' =
    bit r.msgsts (16 + j) ≡ 1
    → (bit r'.msgsts (16 + j) ≡ 1) × (r'.msg j ≡ r.msg j) × (r'.inb_msg_src j ≡ r.inb_msg_src j)

abbrev pub IsKeptAt : Side → ℕ → Machine → Machine → Type 0
IsKeptAt q j m m' = IsKept j (regs_at q m.shm) (regs_at q m'.shm)

module _ (j val : ℕ) (m : Machine) where
  pub doorbell-IsKept : (p q : Side) → WhenOk (ring_doorbell (wiring_of p) val m) (IsKeptAt q j m)
  unfolding ring_doorbell
  doorbell-IsKept at_vm1 at_vm1 = ground arith
  doorbell-IsKept at_vm1 at_vm2 = ground arith
  doorbell-IsKept at_vm2 at_vm1 = ground arith
  doorbell-IsKept at_vm2 at_vm2 = ground arith

  pub signal-IsKept : (p q : Side) → WhenOk (signal_global (wiring_of p) val m) (IsKeptAt q j m)
  unfolding signal_global
  signal-IsKept at_vm1 at_vm1 = ground arith
  signal-IsKept at_vm1 at_vm2 = ground arith
  signal-IsKept at_vm2 at_vm1 = ground arith
  signal-IsKept at_vm2 at_vm2 = ground arith

  pub bar-IsKept :
      (p q : Side) (f : BarField) → WhenOk (write_peer_bar (wiring_of p) f val m) (IsKeptAt q j m)
  unfolding write_peer_bar
  bar-IsKept at_vm1 at_vm1 f = ground arith
  bar-IsKept at_vm1 at_vm2 f = ground arith
  bar-IsKept at_vm2 at_vm1 f = ground arith
  bar-IsKept at_vm2 at_vm2 f = ground arith

  pub gas_write-IsKept :
      (p q : Side) (o : Option GlobalRegister) → IsKeptAt q j m (gas_write o (wiring_of p) val m)
  unfolding gas_write
  gas_write-IsKept at_vm1 at_vm1 (some segsigsts) = ground arith
  gas_write-IsKept at_vm1 at_vm2 (some segsigsts) = ground arith
  gas_write-IsKept at_vm2 at_vm1 (some segsigsts) = ground arith
  gas_write-IsKept at_vm2 at_vm2 (some segsigsts) = ground arith
  gas_write-IsKept at_vm1 at_vm1 _ = ground arith
  gas_write-IsKept at_vm1 at_vm2 _ = ground arith
  gas_write-IsKept at_vm2 at_vm1 _ = ground arith
  gas_write-IsKept at_vm2 at_vm2 _ = ground arith

  pub mtb-IsKept : (q : Side) (v : ℕ) → IsKeptAt q j m (set_nt_mtb_data v m)
  unfolding set_nt_mtb_data
  mtb-IsKept at_vm1 v = ground arith
  mtb-IsKept at_vm2 v = ground arith

  -- To the peer's mailbox a full place refuses, and another place is another bit.
  pub outmsg-IsKept :
      (p q : Side) (i : ℕ)
      → i < 4
      → WhenOk (write_outbound_msg (wiring_of p) i val m) (IsKeptAt q j m)
  unfolding write_outbound_msg
  outmsg-IsKept at_vm1 at_vm1 i lt =
      ground (arith, set_bit_ne m.shm.vm1.regs.msgsts (0 + i) (16 + j))
  outmsg-IsKept at_vm1 at_vm2 i lt = ground (
    arith,
    test_bit m.shm.vm2.regs.msgsts (16 + i),
    set_bit_ne m.shm.vm2.regs.msgsts (16 + i) (16 + j),
  )
  outmsg-IsKept at_vm2 at_vm1 i lt = ground (
    arith,
    test_bit m.shm.vm1.regs.msgsts (16 + i),
    set_bit_ne m.shm.vm1.regs.msgsts (16 + i) (16 + j),
  )
  outmsg-IsKept at_vm2 at_vm2 i lt =
      ground (arith, set_bit_ne m.shm.vm2.regs.msgsts (0 + i) (16 + j))
