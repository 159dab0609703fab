-- ===== src/Mmio/Message.antt =====
-- `write_outbound_msg`: a message goes into a register of the peer.
-- About qemu_src/hw/misc/idt_ntb_ivshmem.c, lines 421 to 463.
use ntb_cxl.Prelude.{
  ℕ, ◌^◌, bit_and, bit_or, ◌&&◌, ltb, if◌then◌else◌, is_nonzero, not32, not64, update,
}
use ntb_cxl.Prelude.Int.{is_minus_one}
use ntb_cxl.Device.{
  Outcome, ok, Wiring, Machine, ShmStorage, regs_at, set_regs, emit, Effect, interrupt_notify,
  notify_other, fld_inmsgsts, fld_outmsgsts, ntintsts_msg, eventfd_interrupt_host,
}

-- The branch for a register of the peer that still holds a message.
unfoldable pub refuse_msg : Wiring → ℕ → Machine → Machine
unfolding interrupt_notify
refuse_msg w index m =
    let own = regs_at w.regs m.shm in
    let own' = record own { msgsts = bit_or own.msgsts (2 ^ fld_outmsgsts index) } in
    if is_nonzero (bit_and own.msgsts_mask (not32 (2 ^ fld_outmsgsts index)))
      && is_nonzero (bit_and (not32 m.shm.gregs.nt_int_mask) ntintsts_msg)
    then interrupt_notify 0 (record m {
      shm = set_regs w.regs (record own' { intsts = bit_or own.intsts ntintsts_msg }) m.shm;
    })
    else record m { shm = set_regs w.regs own' m.shm }

-- The peer's registers with message `val` of partition `part` in register `index`.
unfoldable pub store_msg : ℕ → ℕ → Wiring → ShmStorage → ShmStorage
store_msg index val w sh =
    let peer = regs_at w.peer_regs sh in
    set_regs w.peer_regs (record peer { msg = update peer.msg index val }) sh

-- The branch that tells the peer of the message, if there is one.
unfoldable pub announce_msg : Wiring → ℕ → Machine → Outcome Machine
unfolding notify_other
announce_msg w index m =
    let peer = regs_at w.peer_regs m.shm in
    let peer' = record peer {
      msgsts = bit_or peer.msgsts (2 ^ fld_inmsgsts index);
      inb_msg_src = update peer.inb_msg_src index (regs_at w.regs m.shm).inbound_mw_part;
    } in
    if is_nonzero (bit_and (not64 peer.msgsts_mask) (2 ^ fld_inmsgsts index))
      && is_nonzero (bit_and (not32 m.shm.gregs.nt_int_mask) ntintsts_msg)
    then notify_other eventfd_interrupt_host (record m {
      shm = set_regs w.peer_regs (record peer' { intsts = bit_or peer.intsts ntintsts_msg }) m.shm;
    })
    else ok (record m { shm = set_regs w.peer_regs peer' m.shm })

-- The index is never negative: the callers pass 0 to 3.
unfoldable pub write_outbound_msg : Wiring → ℕ → ℕ → Machine → Outcome Machine
unfolding refuse_msg store_msg announce_msg
write_outbound_msg w index val m =
    if ltb 3 index
    then ok (emit Effect.error m)
    else if is_nonzero (bit_and (regs_at w.peer_regs m.shm).msgsts (2 ^ fld_inmsgsts index))
    then ok (refuse_msg w index m)
    else let stored = record m { shm = store_msg index val w m.shm } in
      if is_minus_one m.dev.other_vm_id then ok stored else announce_msg w index stored
