-- ===== src/Interleaving.antt =====
-- The two devices access by access: the handlers as programs over the shared memory, in the order
-- in which the source reads and writes it, and their interleavings.
-- About qemu_src/hw/misc/idt_ntb_ivshmem.c, lines 421 to 463 and 598 to 727.
pub mod Exec
pub mod Race
pub mod Own
pub mod Receiver
pub mod Sender
pub mod Stage
pub mod Publish
pub mod Partway
pub mod Lost
use ntb_cxl.Prelude.{
  ℕ, ◌^◌, Bool, ltb, ◌==◌, if◌then◌else◌, is_nonzero, bit_and, bit_or, not32, not64, u32, update,
}
use ntb_cxl.Prelude.Int.{pos, negsuc, is_minus_one}
use ntb_cxl.Device.{
  Outcome, ok, abort, fault, Wiring, Machine, IvShmemState, ShmStorage, Side, regs_at, set_regs,
  emit, Effect, has_eventfd, fld_inmsgsts, fld_outmsgsts, ntintsts_msg, ntintsts_dbell,
  ntintsts_sevent, eventfd_interrupt_host, ConfigRegister,
}

-- A variable of the shared memory that the handlers below use.
pub data Place : Type 0 where
  status status_mask interrupts doorbell doorbell_mask partition control : (p : Side) → Place
  message source : (p : Side) (i : ℕ) → Place
  interrupt_mask segments : Place

unfoldable pub load : Place → ShmStorage → ℕ
load (status p) sh = (regs_at p sh).msgsts
load (status_mask p) sh = (regs_at p sh).msgsts_mask
load (interrupts p) sh = (regs_at p sh).intsts
load (doorbell p) sh = (regs_at p sh).db
load (doorbell_mask p) sh = (regs_at p sh).db_mask
load (partition p) sh = (regs_at p sh).inbound_mw_part
load (control p) sh = (regs_at p sh).ntctl
load (message p i) sh = (regs_at p sh).msg i
load (source p i) sh = (regs_at p sh).inb_msg_src i
load interrupt_mask sh = sh.gregs.nt_int_mask
load segments sh = sh.gregs.segsigsts

unfoldable pub save : Place → ℕ → ShmStorage → ShmStorage
save (status p) v sh = set_regs p (record (regs_at p sh) { msgsts = v }) sh
save (status_mask p) v sh = set_regs p (record (regs_at p sh) { msgsts_mask = v }) sh
save (interrupts p) v sh = set_regs p (record (regs_at p sh) { intsts = v }) sh
save (doorbell p) v sh = set_regs p (record (regs_at p sh) { db = v }) sh
save (doorbell_mask p) v sh = set_regs p (record (regs_at p sh) { db_mask = v }) sh
save (partition p) v sh = set_regs p (record (regs_at p sh) { inbound_mw_part = v }) sh
save (control p) v sh = set_regs p (record (regs_at p sh) { ntctl = v }) sh
save (message p i) v sh =
    let r = regs_at p sh in set_regs p (record r { msg = update r.msg i v }) sh
save (source p i) v sh =
    let r = regs_at p sh in set_regs p (record r { inb_msg_src = update r.inb_msg_src i v }) sh
save interrupt_mask v sh = record sh { gregs = record (sh.gregs) { nt_int_mask = v } }
save segments v sh = record sh { gregs = record (sh.gregs) { segsigsts = v } }

-- What is left of a handler: it reads a variable, writes one, calls a function of QEMU, or ends.
pub data Program : Type 0 where
  done stopped faulted : Program
  fetch : (a : Place) (next : ℕ → Program) → Program
  put : (a : Place) (v : ℕ) (next : Program) → Program
  raise : (e : Effect) (next : Program) → Program

-- `a |= flags` and `a &= ~val` read and then write.
abbrev pub set_flags : Place → ℕ → Program → Program
set_flags a flags next = fetch a λ v. put a (bit_or v flags) next

-- `if` with a condition that reads a variable.
abbrev pub when : Place → (ℕ → Bool) → Program → Program
when a test next = fetch a λ v. if test v then next else done

-- `~s->gregs->nt_int_mask & flag`.
abbrev pub allows : ℕ → ℕ → Bool
allows flag masked = is_nonzero (bit_and (not32 masked) flag)

-- The conditions on MSGSTSMSK at a refusal and at a delivery.
abbrev pub minds_refusal : ℕ → ℕ → Bool
minds_refusal i mask = is_nonzero (bit_and mask (not32 (2 ^ fld_outmsgsts i)))

abbrev pub minds_message : ℕ → ℕ → Bool
minds_message i mask = is_nonzero (bit_and (not64 mask) (2 ^ fld_inmsgsts i))

-- The event of the peer for interrupts, after the flag in its NTINTSTS.
abbrev pub notify_program : IvShmemState → Program
notify_program d = elim d.other_vm_id [
  | pos q ↦
      if has_eventfd d q eventfd_interrupt_host
      then raise (Effect.event_set q eventfd_interrupt_host) done
      else faulted
  | negsuc n ↦ faulted
]

abbrev pub tell_program : Wiring → IvShmemState → ℕ → Program
tell_program w d flag =
    when interrupt_mask (allows flag) (set_flags (interrupts w.peer_regs) flag (notify_program d))

-- `write_outbound_msg`, from the refusal and from line 451 on.
abbrev pub complain_program : Wiring → Program
complain_program w =
    when interrupt_mask (allows ntintsts_msg)
      (set_flags (interrupts w.regs) ntintsts_msg (raise (Effect.msi 0) done))

unfoldable pub refuse_program : Wiring → ℕ → Program
refuse_program w i =
    set_flags (status w.regs) (2 ^ fld_outmsgsts i)
      (when (status_mask w.regs) (minds_refusal i) (complain_program w))

abbrev pub source_program : Wiring → IvShmemState → ℕ → Program
source_program w d i = fetch (partition w.regs) λ part.
    put (source w.peer_regs i) part
      (when (status_mask w.peer_regs) (minds_message i) (tell_program w d ntintsts_msg))

unfoldable pub announce_program : Wiring → IvShmemState → ℕ → Program
announce_program w d i = set_flags (status w.peer_regs) (2 ^ fld_inmsgsts i) (source_program w d i)

-- From the write of the message on.
unfoldable pub deliver_program : Wiring → IvShmemState → ℕ → Program
unfolding announce_program
deliver_program w d i = if is_minus_one d.other_vm_id then done else announce_program w d i

unfoldable pub send_program : Wiring → IvShmemState → ℕ → ℕ → Program
unfolding refuse_program deliver_program
send_program w d i val =
    if ltb 3 i
    then raise Effect.error done
    else fetch (status w.peer_regs) λ st.
      if is_nonzero (bit_and st (2 ^ fld_inmsgsts i))
      then refuse_program w i
      else put (message w.peer_regs i) val (deliver_program w d i)

-- IDT_NT_OUTDBELLSET and IDT_NT_NTGSIGNAL.
unfoldable pub ring_program : Wiring → IvShmemState → ℕ → Program
ring_program w d val =
    put (doorbell w.peer_regs) (u32 val)
      (if is_minus_one d.other_vm_id then done else tell_program w d ntintsts_dbell)

unfoldable pub signal_program : Wiring → IvShmemState → ℕ → Program
signal_program w d val =
    if val == 1 then set_flags segments 1 (tell_program w d ntintsts_sevent) else stopped

-- The writes to BAR 0 that change registers of which both machines read and write.
pub data Handler : Type 0 where
  send : (i val : ℕ) → Handler
  ring signal clear_interrupts clear_doorbell clear_status : (val : ℕ) → Handler
  mask_doorbell mask_status mask_interrupts set_partition set_control : (val : ℕ) → Handler

unfoldable pub program : Handler → Wiring → IvShmemState → Program
unfolding send_program ring_program signal_program
program (send i val) w d = send_program w d i val
program (ring val) w d = ring_program w d val
program (signal val) w d = signal_program w d val
program (clear_interrupts val) w d =
    fetch (interrupts w.regs) λ v. put (interrupts w.regs) (bit_and v (not64 val)) done
program (clear_doorbell val) w d =
    fetch (doorbell w.regs) λ v. put (doorbell w.regs) (u32 (bit_and v (not64 val))) done
program (clear_status val) w d =
    fetch (status w.regs) λ v. put (status w.regs) (bit_and v (not64 val)) done
program (mask_doorbell val) w d = put (doorbell_mask w.regs) (u32 val) done
program (mask_status val) w d = put (status_mask w.regs) val done
program (mask_interrupts val) w d = put interrupt_mask (u32 val) done
program (set_partition val) w d = put (partition w.regs) (u32 val) done
program (set_control val) w d = put (control w.regs) val done

-- The register and the value of the write.
abbrev pub register_of : Handler → ConfigRegister
register_of (send i val) = ConfigRegister.outmsg i
register_of (ring val) = ConfigRegister.outdbellset
register_of (signal val) = ConfigRegister.ntgsignal
register_of (clear_interrupts val) = ConfigRegister.ntintsts
register_of (clear_doorbell val) = ConfigRegister.indbellsts
register_of (clear_status val) = ConfigRegister.msgsts
register_of (mask_doorbell val) = ConfigRegister.indbellmsk
register_of (mask_status val) = ConfigRegister.msgstsmsk
register_of (mask_interrupts val) = ConfigRegister.ntintmsk
register_of (set_partition val) = ConfigRegister.oof_tpart
register_of (set_control val) = ConfigRegister.ntctl

abbrev pub value_of : Handler → ℕ
value_of (send i val) = val
value_of (ring val) = val
value_of (signal val) = val
value_of (clear_interrupts val) = val
value_of (clear_doorbell val) = val
value_of (clear_status val) = val
value_of (mask_doorbell val) = val
value_of (mask_status val) = val
value_of (mask_interrupts val) = val
value_of (set_partition val) = val
value_of (set_control val) = val

-- A program that is not interrupted.
unfoldable pub exec : Program → Machine → Outcome Machine
unfolding load save
exec done m = ok m
exec stopped m = abort
exec faulted m = fault
exec (fetch a next) m = exec (next (load a m.shm)) m
exec (put a v next) m = exec next (record m { shm = save a v m.shm })
exec (raise e next) m = exec next (emit e m)
