-- ===== src/System/Sized.antt =====
-- Writes to BAR 0 keep the widths of the registers.
-- About qemu_src/hw/misc/idt_ntb_ivshmem.c, lines 421 to 463, 515 to 577 and 598 to 727.
use ntb_cxl.Prelude.{ℕ, zero, suc, ◌+◌, ◌^◌, ◌<◌, arith, bit_or, u32, update}
use ntb_cxl.Device.{
  WhenOk, SharedRegisters, GlobalRegisters, ShmStorage, Side, at_vm1, at_vm2, vm_at, Wiring,
  Machine, regs_at, notify_other, ntintsts_dbell, ntintsts_msg, ntintsts_sevent,
}
use ntb_cxl.Mmio.{
  ring_doorbell, signal_global, write_outbound_msg, refuse_msg, announce_msg, store_msg,
}
use ntb_cxl.Prelude.Bits.{bit_or-lt}
use ntb_cxl.System.Widths.{
  IsSizedRegs, IsSizedGlobals, IsSizedVm, IsSized, set_regs-IsSized, update-lt, bit_or-fits,
}

abbrev pub IsSizedAfter : Machine → Type 0
IsSizedAfter m = IsSized m.shm

notify-WhenOk :
    (P : ShmStorage → Type 0) (vector : ℕ) (m : Machine)
    → P m.shm
    → WhenOk (notify_other vector m) (λ m'. P m'.shm)
unfolding notify_other
notify-WhenOk P vector m h = ground arith

set_db : (val : ℕ) {r : SharedRegisters} → IsSizedRegs r → IsSizedRegs (record r { db = u32 val })
set_db val {r} h = ground arith

set_intsts :
    (flag : ℕ) {r : SharedRegisters}
    → IsSizedRegs r
    → flag < 2 ^ 64
    → IsSizedRegs (record r { intsts = bit_or r.intsts flag })
set_intsts flag {r} h small = ground (arith, bit_or-fits r.intsts flag)

set_msgsts :
    (flag : ℕ) {r : SharedRegisters}
    → IsSizedRegs r
    → flag < 2 ^ 64
    → IsSizedRegs (record r { msgsts = bit_or r.msgsts flag })
set_msgsts flag {r} h small = ground (arith, bit_or-fits r.msgsts flag)

set_msg :
    (i val : ℕ) {r : SharedRegisters}
    → IsSizedRegs r
    → val < 2 ^ 64
    → IsSizedRegs (record r { msg = update r.msg i val })
set_msg i val {r} h small =
    let all = update-lt r.msg i val (2 ^ 64) small h.msg in ground (arith, all)

set_source :
    (i val : ℕ) {r : SharedRegisters}
    → IsSizedRegs r
    → val < 2 ^ 32
    → IsSizedRegs (record r { inb_msg_src = update r.inb_msg_src i val })
set_source i val {r} h small =
    let all = update-lt r.inb_msg_src i val (2 ^ 64) (omega arith) h.source in ground (arith, all)

pub set_control :
    (i val : ℕ) {r : SharedRegisters}
    → IsSizedRegs r
    → val < 2 ^ 64
    → IsSizedRegs (record r { part0_msg_control = update r.part0_msg_control i val })
set_control i val {r} h small =
    let all = update-lt r.part0_msg_control i val (2 ^ 64) small h.control in ground (arith, all)

pub set_globals-IsSized :
    (g : GlobalRegisters) (sh : ShmStorage)
    → IsSized sh
    → IsSizedGlobals g
    → IsSized (record sh { gregs = g })
set_globals-IsSized g sh h k = record { globals = k; vm = vm }
  where
    vm : (p : Side) → IsSizedVm (vm_at p (record sh { gregs = g }))
    vm at_vm1 = h.vm at_vm1
    vm at_vm2 = h.vm at_vm2

module _ (w : Wiring) (val : ℕ) (m : Machine) (s : IsSized m.shm) where
  own : IsSizedRegs (regs_at w.regs m.shm)
  own = (s.vm w.regs).regs

  peer : IsSizedRegs (regs_at w.peer_regs m.shm)
  peer = (s.vm w.peer_regs).regs

  pub doorbell-IsSized : WhenOk (ring_doorbell w val m) IsSizedAfter
  unfolding ring_doorbell
  doorbell-IsSized =
      let rung = set_regs-IsSized w.peer_regs _ m.shm s (set_db val peer) in
      let told =
        set_regs-IsSized w.peer_regs _ m.shm s
          (set_intsts ntintsts_dbell (set_db val peer) (omega arith)) in
      ground (arith, rung, told)

  pub signal-IsSized : WhenOk (signal_global w val m) IsSizedAfter
  unfolding signal_global
  signal-IsSized =
      let g : IsSizedGlobals (record (m.shm.gregs) { segsigsts = bit_or m.shm.gregs.segsigsts 1 }) =
        ground (arith, s.globals, bit_or-lt 32 m.shm.gregs.segsigsts 1) in
      let flagged = set_globals-IsSized _ m.shm s g in
      let told =
        set_regs-IsSized w.peer_regs _ _ flagged
          (set_intsts ntintsts_sevent ((flagged.vm w.peer_regs).regs) (omega arith)) in
      ground (arith, flagged, told)

  refuse-IsSized : (i : ℕ) → 2 ^ (0 + i) < 2 ^ 64 → IsSizedAfter (refuse_msg w i m)
  unfolding refuse_msg
  refuse-IsSized i small =
      let marked = set_msgsts (2 ^ (0 + i)) own small in
      let plain = set_regs-IsSized w.regs _ m.shm s marked in
      let told = set_regs-IsSized w.regs _ m.shm s (set_intsts ntintsts_msg marked (omega arith)) in
      ground (arith, plain, told)

  announce-IsSized : (i : ℕ) → 2 ^ (16 + i) < 2 ^ 64 → WhenOk (announce_msg w i m) IsSizedAfter
  unfolding announce_msg
  announce-IsSized i small =
      let marked =
        set_source i (regs_at w.regs m.shm).inbound_mw_part (set_msgsts (2 ^ (16 + i)) peer small)
          own.part in
      let plain = set_regs-IsSized w.peer_regs _ m.shm s marked in
      let told =
        set_regs-IsSized w.peer_regs _ m.shm s (set_intsts ntintsts_msg marked (omega arith)) in
      ground (arith, plain, told)

flag-fits : (i : ℕ) → i < 4 → (2 ^ (0 + i) < 2 ^ 64) × (2 ^ (16 + i) < 2 ^ 64)
flag-fits zero lt = omega arith
flag-fits (suc zero) lt = omega arith
flag-fits (suc (suc zero)) lt = omega arith
flag-fits (suc (suc (suc zero))) lt = omega arith
flag-fits (suc (suc (suc (suc i)))) lt = absurd (omega arith)

pub outmsg-IsSized :
    (w : Wiring) (i val : ℕ) (m : Machine)
    → IsSized m.shm
    → i < 4
    → val < 2 ^ 64
    → WhenOk (write_outbound_msg w i val m) IsSizedAfter
unfolding write_outbound_msg store_msg
outmsg-IsSized w i val m s lt small =
    let stored =
      set_regs-IsSized w.peer_regs _ m.shm s (set_msg i val ((s.vm w.peer_regs).regs) small) in
    let fits = flag-fits i lt in
    let refused = refuse-IsSized w val m s i fits.0 in
    let announced =
      announce-IsSized w val (record m { shm = store_msg i val w m.shm }) stored i fits.1 in
    ground (arith, refused, stored, announced)
