-- ===== src/Tests/Failures.antt =====
-- The inputs at which the register file fails, or loses something.
use ntb_cxl.Prelude.{◌≡◌, refl, arith, u32}
use ntb_cxl.Prelude.Bits.{bit}
use ntb_cxl.Device.{
  Returns, fault, ◌>>=◌, Machine, at_vm1, wiring_of, opposite, regs_at, outmsg, outdbellset,
  ntgsignal, oof_lutoff, oof_ldata, oof_hdata, oof_llimit, oof_hlimit,
}
use ntb_cxl.Dispatch.{address}
use ntb_cxl.Mmio.{io_write}
use ntb_cxl.Messages.{outmsg-unmasked_refuse}
use ntb_cxl.Doorbell.{outdbellset-overwrites}
use ntb_cxl.Isolation.{oof_lutoff-fault, ntgsignal-fault}
use ntb_cxl.Tests.Data.{storage, busy_storage, on_storage, alone}

abbrev m : Machine
m = on_storage storage

abbrev busy : Machine
busy = on_storage busy_storage

outmsg-unmasked_refuse_example :
    Returns (io_write (wiring_of at_vm1) (address (outmsg 0)) 9 busy) λ m'.
      (m'.effects ≡ busy.effects)
      × ((regs_at at_vm1 m'.shm).intsts ≡ (regs_at at_vm1 busy.shm).intsts)
unfolding bit
outmsg-unmasked_refuse_example = outmsg-unmasked_refuse at_vm1 0 9 busy (omega arith) refl refl

outdbellset-overwrites_example :
    Returns
      (io_write (wiring_of at_vm1) (address outdbellset) 1 m
        >>= io_write (wiring_of at_vm1) (address outdbellset) 2)
      (λ m'. (regs_at (opposite at_vm1) m'.shm).db ≡ u32 2)
outdbellset-overwrites_example = outdbellset-overwrites at_vm1 1 2 1 m (omega arith) refl refl

oof_lutoff-fault_example :
    ((io_write (wiring_of at_vm1) (address oof_lutoff) 6 m
        >>= io_write (wiring_of at_vm1) (address oof_ldata) 9)
      ≡ fault)
    × ((io_write (wiring_of at_vm1) (address oof_lutoff) 6 m
          >>= io_write (wiring_of at_vm1) (address oof_hdata) 9)
        ≡ fault)
    × ((io_write (wiring_of at_vm1) (address oof_lutoff) 6 m
          >>= io_write (wiring_of at_vm1) (address oof_llimit) 9)
        ≡ fault)
    × ((io_write (wiring_of at_vm1) (address oof_lutoff) 6 m
          >>= io_write (wiring_of at_vm1) (address oof_hlimit) 9)
        ≡ fault)
oof_lutoff-fault_example = oof_lutoff-fault (wiring_of at_vm1) 6 9 m (omega arith) (omega arith)

ntgsignal-fault_example : io_write (wiring_of at_vm1) (address ntgsignal) 1 alone ≡ fault
unfolding bit
ntgsignal-fault_example = ntgsignal-fault (wiring_of at_vm1) alone refl (omega arith) refl
