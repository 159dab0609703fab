-- ===== src/Tests/Bar0.antt =====
-- The register file: messages, doorbell, interrupts and the reach of a write.
use ntb_cxl.Prelude.{◌≡◌, ◌+◌, refl, arith, true, none, ◌==◌, if◌then◌else◌}
use ntb_cxl.Prelude.Bits.{bit}
use ntb_cxl.Device.{
  Returns, OnOffAuto, Machine, at_vm1, at_vm2, wiring_of, regs_at, outmsg, msgsts, outdbellset,
  indbellsts, ntintsts, ntgsignal,
}
use ntb_cxl.Dispatch.{address}
use ntb_cxl.Mmio.{io_write, io_read, write_register, read_register, write_outbound_msg}
use ntb_cxl.Messages.{IsReceived, IsRefused, inmsg-outmsg, outmsg-IsRefused}
use ntb_cxl.Messages.Mailbox.{IsPosted, mailbox, outmsg-post, msgsts-mailbox}
use ntb_cxl.Doorbell.{IsCleared, IsPrivate, status-IsCleared}
use ntb_cxl.Interrupt.Delivery.{IsAnswered, outdbellset-IsAnswered}
use ntb_cxl.Isolation.{IsFramed, io_write-IsFramed}
use ntb_cxl.Isolation.Silence.{IsSilent, io_write-IsSilent}
use ntb_cxl.Realize.{PciCalls, finish_realize}
use ntb_cxl.Realize.Up.{IsFinished, is_refused, finish_realize-IsFinished}
use ntb_cxl.Tests.Data.{storage, busy_storage, masked_storage, dev_b, on_storage}

abbrev m : Machine
m = on_storage storage

abbrev busy : Machine
busy = on_storage busy_storage

message_arrives :
    Returns
      (io_write (wiring_of at_vm1) 0x434 0xCAFE m)
      λ m'. io_read (wiring_of at_vm2) 0 0x444 dev_b m'.shm ≡ 0xCAFE
unfolding io_write io_read write_register read_register write_outbound_msg
message_arrives = refl

inmsg-outmsg_example :
    Returns
      (io_write (wiring_of at_vm1) (address (outmsg 1)) 0xCAFE m)
      (IsReceived at_vm1 1 0xCAFE m)
unfolding bit
inmsg-outmsg_example = inmsg-outmsg at_vm1 1 0xCAFE 1 m (omega arith) (omega arith) refl refl refl

outmsg-IsRefused_example :
    Returns (io_write (wiring_of at_vm1) (address (outmsg 0)) 0xCAFE busy) (IsRefused at_vm1 0 busy)
unfolding bit
outmsg-IsRefused_example = outmsg-IsRefused at_vm1 0 0xCAFE busy (omega arith) refl

outmsg-post_example :
    Returns
      (io_write (wiring_of at_vm1) (address (outmsg 0)) 0xCAFE busy)
      (IsPosted at_vm1 0 0xCAFE busy)
outmsg-post_example = outmsg-post at_vm1 0 0xCAFE 1 busy (omega arith) (omega arith) refl refl

msgsts-mailbox_example : Returns (io_write (wiring_of at_vm2) (address msgsts) 0x10000 busy) λ m'.
    mailbox (regs_at at_vm2 m'.shm) 0
    ≡ (if bit 0x10000 (16 + 0) == 1 then none else mailbox (regs_at at_vm2 busy.shm) 0)
msgsts-mailbox_example = msgsts-mailbox at_vm2 0x10000 0 busy (omega arith) (omega arith)

status-IsCleared_example :
    Returns (io_write (wiring_of at_vm2) (address indbellsts) 0x10000 busy) (λ m'.
      IsCleared 0x10000 16 (regs_at at_vm2 busy.shm).db (regs_at at_vm2 m'.shm).db
      × IsPrivate at_vm2 busy m')
    × Returns (io_write (wiring_of at_vm2) (address msgsts) 0x10000 busy) (λ m'.
      IsCleared 0x10000 16 (regs_at at_vm2 busy.shm).msgsts (regs_at at_vm2 m'.shm).msgsts
      × IsPrivate at_vm2 busy m')
    × Returns (io_write (wiring_of at_vm2) (address ntintsts) 0x10000 busy) (λ m'.
      IsCleared 0x10000 16 (regs_at at_vm2 busy.shm).intsts (regs_at at_vm2 m'.shm).intsts
      × IsPrivate at_vm2 busy m')
status-IsCleared_example =
    status-IsCleared at_vm2 0x10000 16 busy (omega arith) (omega arith) (omega arith)

outdbellset-IsAnswered_example :
    Returns (io_write (wiring_of at_vm1) (address outdbellset) 5 m) (IsAnswered at_vm1 5 1 dev_b m)
unfolding bit
outdbellset-IsAnswered_example =
    outdbellset-IsAnswered at_vm1 5 1 dev_b m (omega arith) (omega arith) refl refl refl refl

io_write-IsFramed_example :
    Returns (io_write (wiring_of at_vm1) (address ntgsignal) 1 m) (IsFramed at_vm1 m)
io_write-IsFramed_example =
    io_write-IsFramed at_vm1 (address ntgsignal) 1 1 m
      (record { other = refl; eventfd = refl; window = omega arith }) (λ _. refl)

io_write-IsSilent_example :
    Returns
      (io_write (wiring_of at_vm1) (address outdbellset) 5 (on_storage masked_storage))
      (IsSilent (on_storage masked_storage))
unfolding bit
io_write-IsSilent_example =
    io_write-IsSilent (wiring_of at_vm1) (address outdbellset) 5 (on_storage masked_storage)
      (record { width = omega arith; messages = refl; doorbell = refl; events = refl })
      (omega arith) (λ e. absurd (omega arith))

-- The calls of QEMU succeed.
abbrev pci : PciCalls
pci = record { msix_init_ok = true; msi_init_ok = true; add_blocker_ok = true }

finish_realize-IsFinished_example :
    Returns (finish_realize pci m) λ r. IsFinished 2 0 OnOffAuto.off storage r (is_refused pci m)
finish_realize-IsFinished_example = finish_realize-IsFinished pci m 2 (omega arith)
