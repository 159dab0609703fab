-- ===== src/Interrupt.antt =====
-- How two devices find one another and pass interrupts on: `init_vm_ids` and
-- `ivshmem_vector_notify`. About qemu_src/hw/misc/idt_ntb_ivshmem.c, lines 585 to 594 and 989 to
-- 1016.
pub mod Delivery
use ntb_cxl.Prelude.{ℕ, ◌==◌, Bool, none, some, if◌then◌else◌, u32}
use ntb_cxl.Prelude.Int.{int_of_u32}
use ntb_cxl.Device.{
  Outcome, ok, fault, Wiring, Machine, Effect, vm_at, set_vm, emit, interrupt_notify, notify_other,
  has_eventfd, eventfd_vm_id, eventfd_interrupt_host,
}

-- `*s->vm_id_shared = s->vm_id`.
abbrev pub publish_id : Wiring → Machine → Machine
publish_id w m = record m {
  shm = set_vm w.vm_id_shared (record (vm_at w.vm_id_shared m.shm) { id = u32 m.dev.vm_id }) m.shm;
}

-- `s->other_vm_id = *s->other_vm_id_shared`.
abbrev pub learn_id : Wiring → Machine → Machine
learn_id w m = record m {
  dev = record (m.dev) { other_vm_id = int_of_u32 (vm_at w.other_vm_id_shared m.shm).id };
}

-- `init_vm_ids`. Its first line dereferences `vm_id_shared`.
unfoldable pub init_vm_ids : Machine → Outcome Machine
unfolding notify_other
init_vm_ids m = elim m.dev.wiring [
  | none ↦ fault
  | some w ↦
      if m.dev.self_number == 0
      then ok (publish_id w m)
      else notify_other eventfd_vm_id (learn_id w (publish_id w m))
]

-- The switch of `ivshmem_vector_notify`.
unfoldable pub handle_vector : ℕ → Machine → Outcome Machine
unfolding interrupt_notify
handle_vector vector m =
    if vector == eventfd_vm_id
    then elim m.dev.wiring [ none ↦ fault | some w ↦ ok (learn_id w m) ]
    else if vector == eventfd_interrupt_host
    then ok (interrupt_notify 0 m)
    else ok (emit Effect.error m)

-- `ivshmem_vector_notify`; `fired` is the result of `event_notifier_test_and_clear`.
unfoldable pub vector_notify : Bool → ℕ → Machine → Outcome Machine
unfolding handle_vector
vector_notify fired vector m =
    if has_eventfd m.dev m.dev.vm_id vector
    then if fired then handle_vector vector m else ok m
    else fault
