-- ===== src/Messages.antt =====
-- What a write to an outbound message register does: `write_outbound_msg` behind
-- `ivshmem_io_write`. About qemu_src/hw/misc/idt_ntb_ivshmem.c, lines 421 to 463.
pub mod Mailbox
use ntb_cxl.Prelude.{
  ℕ, ◌+◌, ◌^◌, ◌<◌, ◌≡◌, arith, bit_or, Bool, true, ◌∷◌, ◌&&◌, ◌==◌, if◌then◌else◌, update,
  update_self, ap, ◌∙◌, not32,
}
use ntb_cxl.Prelude.Int.{pos}
use ntb_cxl.Prelude.Bits.{bit, zero-bit_and}
use ntb_cxl.Prelude.Masks.{test_bit, test_not32, test_not64, set_bit_self}
use ntb_cxl.Device.{
  Returns, Returns-map, Machine, Side, at_vm1, at_vm2, opposite, wiring_of, vm_at, regs_at,
  IvShmemState, event_set, has_eventfd, inmsg, inmsgsrc, outmsg, msgsts,
}
use ntb_cxl.Dispatch.{address, io_write-address, io_read-address}
use ntb_cxl.Mmio.{write_outbound_msg, io_write, io_read, write_register, read_register}

-- The registers that the tests complement have their widths.
pub record IsFit (p : Side) (m : Machine) : Type 0 where
  pub int_mask : m.shm.gregs.nt_int_mask < 2 ^ 32
  pub peer_mask : (regs_at (opposite p) m.shm).msgsts_mask < 2 ^ 64

-- Neither the peer's message mask nor the global interrupt mask covers message `i`.
abbrev pub is_unmasked : Side → ℕ → Machine → Bool
is_unmasked p i m =
    bit (regs_at (opposite p) m.shm).msgsts_mask (16 + i) == 0 && bit m.shm.gregs.nt_int_mask 0 == 0

-- `m'` is `m` after message `val` went from machine `p` into register `i` of its peer, at
-- position `q` of the server: the register and its source hold the message, its status bit is
-- set, and unless masked the interrupt is recorded and the event raised.
pub record IsDelivered (p : Side) (i val q : ℕ) (m m' : Machine) : Type 0 where
  pub message : (regs_at (opposite p) m'.shm).msg ≡ update (regs_at (opposite p) m.shm).msg i val
  pub source :
      (regs_at (opposite p) m'.shm).inb_msg_src
      ≡ update (regs_at (opposite p) m.shm).inb_msg_src i (regs_at p m.shm).inbound_mw_part
  pub status :
      (regs_at (opposite p) m'.shm).msgsts
      ≡ bit_or (regs_at (opposite p) m.shm).msgsts (2 ^ (16 + i))
  pub own : vm_at p m'.shm ≡ vm_at p m.shm
  pub doorbell : (regs_at (opposite p) m'.shm).db ≡ (regs_at (opposite p) m.shm).db
  pub interrupt : (regs_at (opposite p) m'.shm).intsts ≡ (
      if is_unmasked p i m
      then bit_or (regs_at (opposite p) m.shm).intsts 1
      else (regs_at (opposite p) m.shm).intsts)
  pub event : m'.effects ≡ (if is_unmasked p i m then event_set q 1 ∷ m.effects else m.effects)

deliver :
    (p : Side) (i val q : ℕ) (m : Machine)
    → i < 4
    → IsFit p m
    → m.dev.other_vm_id ≡ pos q
    → has_eventfd m.dev q 1 ≡ true
    → bit (regs_at (opposite p) m.shm).msgsts (16 + i) ≡ 0
    → Returns (write_outbound_msg (wiring_of p) i val m) (IsDelivered p i val q m)
unfolding write_outbound_msg
deliver at_vm1 i val q m le fit other fd free = ground (
  arith,
  test_bit m.shm.vm2.regs.msgsts (16 + i),
  test_not64 m.shm.vm2.regs.msgsts_mask (16 + i),
  test_not32 m.shm.gregs.nt_int_mask 0,
)
deliver at_vm2 i val q m le fit other fd free = ground (
  arith,
  test_bit m.shm.vm1.regs.msgsts (16 + i),
  test_not64 m.shm.vm1.regs.msgsts_mask (16 + i),
  test_not32 m.shm.gregs.nt_int_mask 0,
)

-- A message written to OUTMSGi while the peer's register i is free (its INMSGSTSi is clear) is
-- delivered: the handler returns, the peer's register, source and status are set, the sender's
-- part is untouched, and the peer is interrupted exactly if neither mask covers the message.
pub outmsg-IsDelivered :
    (p : Side) (i val q : ℕ) (m : Machine)
    → i < 4
    → IsFit p m
    → m.dev.other_vm_id ≡ pos q
    → has_eventfd m.dev q 1 ≡ true
    → bit (regs_at (opposite p) m.shm).msgsts (16 + i) ≡ 0
    → Returns (io_write (wiring_of p) (address (outmsg i)) val m) (IsDelivered p i val q m)
unfolding write_register
outmsg-IsDelivered p i val q m lt fit other fd free =
    rw (io_write-address (outmsg i) (wiring_of p) val m lt)
      (deliver p i val q m lt fit other fd free)

-- What the peer reads after a delivery.
abbrev pub IsReceived : Side → ℕ → ℕ → Machine → Machine → Type 0
IsReceived p i val m m' =
    (d : IvShmemState) (requester : ℕ)
    → (io_read (wiring_of (opposite p)) requester (address (inmsg i)) d m'.shm ≡ val)
      × (io_read (wiring_of (opposite p)) requester (address (inmsgsrc i)) d m'.shm
          ≡ (regs_at p m.shm).inbound_mw_part)
      × (bit (io_read (wiring_of (opposite p)) requester (address msgsts) d m'.shm) (16 + i) ≡ 1)

receive :
    (p : Side) (i val q : ℕ) (m m' : Machine)
    → i < 4
    → IsDelivered p i val q m m'
    → IsReceived p i val m m'
unfolding read_register
receive p i val q m m' lt del d requester = (
  rw (io_read-address (inmsg i) (wiring_of (opposite p)) requester d m'.shm lt)
      (ap (λ f. f i) del.message ∙ update_self (regs_at (opposite p) m.shm).msg i val),
  rw (io_read-address (inmsgsrc i) (wiring_of (opposite p)) requester d m'.shm lt)
      (ap (λ f. f i) del.source ∙ update_self (regs_at (opposite p) m.shm).inb_msg_src i _),
  rw (io_read-address msgsts (wiring_of (opposite p)) requester d m'.shm tt, del.status)
      (set_bit_self _ (16 + i)),
)

-- Round trip between the two machines: after a write of `val` to OUTMSGi with the peer's register
-- free, the peer reads `val` from INMSGi, the sender's partition from INMSGSRCi, and finds
-- INMSGSTSi set in MSGSTS.
pub inmsg-outmsg :
    (p : Side) (i val q : ℕ) (m : Machine)
    → i < 4
    → IsFit p m
    → m.dev.other_vm_id ≡ pos q
    → has_eventfd m.dev q 1 ≡ true
    → bit (regs_at (opposite p) m.shm).msgsts (16 + i) ≡ 0
    → Returns (io_write (wiring_of p) (address (outmsg i)) val m) (IsReceived p i val m)
inmsg-outmsg p i val q m lt fit other fd free =
    Returns-map _ (λ m' del. receive p i val q m m' lt del)
      (outmsg-IsDelivered p i val q m lt fit other fd free)

-- `m'` is `m` after the message to register `i` was turned away: nothing of the peer changes, and
-- the sender's registers only by its error status and its interrupt status.
pub record IsRefused (p : Side) (i : ℕ) (m m' : Machine) : Type 0 where
  pub peer : vm_at (opposite p) m'.shm ≡ vm_at (opposite p) m.shm
  pub globals : m'.shm.gregs ≡ m.shm.gregs
  pub status : (regs_at p m'.shm).msgsts ≡ bit_or (regs_at p m.shm).msgsts (2 ^ i)
  pub message : (regs_at p m'.shm).msg ≡ (regs_at p m.shm).msg
  pub device : m'.dev ≡ m.dev

refuse :
    (p : Side) (i val : ℕ) (m : Machine)
    → i < 4
    → bit (regs_at (opposite p) m.shm).msgsts (16 + i) ≡ 1
    → Returns (write_outbound_msg (wiring_of p) i val m) (IsRefused p i m)
unfolding write_outbound_msg
refuse at_vm1 i val m lt busy = rw (test_bit m.shm.vm2.regs.msgsts (16 + i), busy) (ground arith)
refuse at_vm2 i val m lt busy = rw (test_bit m.shm.vm1.regs.msgsts (16 + i), busy) (ground arith)

-- While the peer's INMSGSTSi is set, a write to OUTMSGi returns and overwrites nothing: the peer's
-- part and the global registers stay, and the sender gets its OUTMSGSTSi error bit.
pub outmsg-IsRefused :
    (p : Side) (i val : ℕ) (m : Machine)
    → i < 4
    → bit (regs_at (opposite p) m.shm).msgsts (16 + i) ≡ 1
    → Returns (io_write (wiring_of p) (address (outmsg i)) val m) (IsRefused p i m)
unfolding write_register
outmsg-IsRefused p i val m lt busy =
    rw (io_write-address (outmsg i) (wiring_of p) val m lt) (refuse p i val m lt busy)

unmasked_refuse :
    (p : Side) (i val : ℕ) (m : Machine)
    → i < 4
    → bit (regs_at (opposite p) m.shm).msgsts (16 + i) ≡ 1
    → (regs_at p m.shm).msgsts_mask ≡ 0
    → Returns
        (write_outbound_msg (wiring_of p) i val m)
        λ m'. (m'.effects ≡ m.effects) × ((regs_at p m'.shm).intsts ≡ (regs_at p m.shm).intsts)
unfolding write_outbound_msg
unmasked_refuse at_vm1 i val m lt busy unmasked =
    rw (test_bit m.shm.vm2.regs.msgsts (16 + i), busy)
      (ground (arith, zero-bit_and (not32 (2 ^ i))))
unmasked_refuse at_vm2 i val m lt busy unmasked =
    rw (test_bit m.shm.vm1.regs.msgsts (16 + i), busy)
      (ground (arith, zero-bit_and (not32 (2 ^ i))))

-- A sender that has masked no message interrupt is never told of a refused message: with its
-- MSGSTSMSK at 0, the refusal neither raises its interrupt nor sets its interrupt status.
pub outmsg-unmasked_refuse :
    (p : Side) (i val : ℕ) (m : Machine)
    → i < 4
    → bit (regs_at (opposite p) m.shm).msgsts (16 + i) ≡ 1
    → (regs_at p m.shm).msgsts_mask ≡ 0
    → Returns
        (io_write (wiring_of p) (address (outmsg i)) val m)
        λ m'. (m'.effects ≡ m.effects) × ((regs_at p m'.shm).intsts ≡ (regs_at p m.shm).intsts)
unfolding write_register
outmsg-unmasked_refuse p i val m lt busy unmasked =
    rw (io_write-address (outmsg i) (wiring_of p) val m lt)
      (unmasked_refuse p i val m lt busy unmasked)
