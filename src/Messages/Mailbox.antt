-- ===== src/Messages/Mailbox.antt =====
-- The message registers of a machine as four one-place mailboxes: what `write_outbound_msg` and the
-- acknowledgement through MSGSTS do to them.
-- About qemu_src/hw/misc/idt_ntb_ivshmem.c, lines 421 to 463 and 666 to 670.
use ntb_cxl.Prelude.{
  ℕ, ◌+◌, ◌^◌, ◌<◌, ◌≡◌, arith, Option, none, some, ◌==◌, if◌then◌else◌, true, inl, inr, ◌⊎◌, ap,
  ◌∙◌,
}
use ntb_cxl.Prelude.Int.{pos}
use ntb_cxl.Prelude.Bits.{bit, bit-le}
use ntb_cxl.Prelude.Masks.{set_bit_self, set_bit_ne, clear_bits}
use ntb_cxl.Device.{
  SharedRegisters, Returns, Returns-map, Machine, Side, at_vm1, at_vm2, opposite, wiring_of,
  regs_at, has_eventfd, outmsg, msgsts,
}
use ntb_cxl.Dispatch.{address, io_write-address}
use ntb_cxl.Mmio.{io_write, write_register}
use ntb_cxl.Messages.{IsFit, IsDelivered, IsRefused, outmsg-IsDelivered, outmsg-IsRefused}

-- Place `i` holds a message with its source exactly while INMSGSTSi is set.
abbrev pub mailbox : SharedRegisters → ℕ → Option (ℕ × ℕ)
mailbox r i = if bit r.msgsts (16 + i) == 1 then some (r.msg i, r.inb_msg_src i) else none

-- A message enters an empty place, and is dropped at a full one.
abbrev pub post : ℕ → ℕ × ℕ → (ℕ → Option (ℕ × ℕ)) → ℕ → Option (ℕ × ℕ)
post i message box j =
    if i == j then elim (box i) [ none ↦ some message | some old ↦ some old ] else box j

digit-cases : (x k : ℕ) → (bit x k ≡ 0) ⊎ (bit x k ≡ 1)
digit-cases x k = ground (arith, bit-le x k)

abbrev pub IsPosted : Side → ℕ → ℕ → Machine → Machine → Type 0
IsPosted p i val m m' =
    (j : ℕ)
    → mailbox (regs_at (opposite p) m'.shm) j
      ≡ post i (val, (regs_at p m.shm).inbound_mw_part) (mailbox (regs_at (opposite p) m.shm)) j

delivered-IsPosted :
    (p : Side) (i val q : ℕ) (m m' : Machine)
    → bit (regs_at (opposite p) m.shm).msgsts (16 + i) ≡ 0
    → IsDelivered p i val q m m'
    → IsPosted p i val m m'
delivered-IsPosted p i val q m m' free del j =
    rw (del.message, del.source, del.status)
      (ground (
        arith,
        set_bit_self (regs_at (opposite p) m.shm).msgsts (16 + i),
        set_bit_ne (regs_at (opposite p) m.shm).msgsts (16 + i) (16 + j),
      ))

refused-IsPosted :
    (p : Side) (i val : ℕ) (m m' : Machine)
    → bit (regs_at (opposite p) m.shm).msgsts (16 + i) ≡ 1
    → IsRefused p i m m'
    → IsPosted p i val m m'
refused-IsPosted p i val m m' busy ref j = ap (λ v. mailbox v.regs j) ref.peer ∙ ground arith

-- Refinement: a write to OUTMSGi posts the message, with the sender's partition, into place `i` of
-- the peer's mailboxes, whether the place is empty or full.
pub outmsg-post :
    (p : Side) (i val q : ℕ) (m : Machine)
    → i < 4
    → IsFit p m
    → m.dev.other_vm_id ≡ pos q
    → has_eventfd m.dev q 1 ≡ true
    → Returns (io_write (wiring_of p) (address (outmsg i)) val m) (IsPosted p i val m)
outmsg-post p i val q m lt fit other fd =
    elim (digit-cases (regs_at (opposite p) m.shm).msgsts (16 + i)) [
      | inl free ↦
          Returns-map _ (λ m' del. delivered-IsPosted p i val q m m' free del)
            (outmsg-IsDelivered p i val q m lt fit other fd free)
      | inr busy ↦
          Returns-map _ (λ m' ref. refused-IsPosted p i val m m' busy ref)
            (outmsg-IsRefused p i val m lt busy)
    ]

-- Acknowledgement: a write of `val` to MSGSTS empties place `j` if its bit is set in `val`, and keeps
-- it otherwise.
pub msgsts-mailbox :
    (p : Side) (val j : ℕ) (m : Machine)
    → val < 2 ^ 64
    → j < 4
    → Returns (io_write (wiring_of p) (address msgsts) val m) λ m'.
      mailbox (regs_at p m'.shm) j
      ≡ (if bit val (16 + j) == 1 then none else mailbox (regs_at p m.shm) j)
unfolding write_register
msgsts-mailbox at_vm1 val j m fits lt = rw (io_write-address msgsts (wiring_of at_vm1) val m tt) (
    ground (
      arith,
      clear_bits m.shm.vm1.regs.msgsts val (16 + j),
      bit-le val (16 + j),
      bit-le m.shm.vm1.regs.msgsts (16 + j),
    ))
msgsts-mailbox at_vm2 val j m fits lt = rw (io_write-address msgsts (wiring_of at_vm2) val m tt) (
    ground (
      arith,
      clear_bits m.shm.vm2.regs.msgsts val (16 + j),
      bit-le val (16 + j),
      bit-le m.shm.vm2.regs.msgsts (16 + j),
    ))
