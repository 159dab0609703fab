-- ===== src/Callbacks.antt =====
-- The three functions that the device gives to `msix_set_vector_notifiers`, and the calls of them.
-- About qemu_src/hw/misc/idt_ntb_ivshmem.c, lines 1018 to 1092 and 1525 to 1532.
use ntb_cxl.Prelude.{
  ℕ, zero, suc, ◌+◌, ◌-◌, Bool, true, false, not, none, some, ltb, if◌then◌else◌, update,
}
use ntb_cxl.Device.{
  Outcome, ok, abort, fault, ◌>>=◌, emit, Effect, add_irqfd, remove_irqfd, update_route,
  commit_routes, set_pending, event_clear, set_notifiers, Machine, has_eventfd,
}
use ntb_cxl.Server.{Reply, success, failure}

-- `ivshmem_vector_mask`; `remove_ok` is the success of `kvm_irqchip_remove_irqfd_notifier_gsi`.
unfoldable pub vector_mask : (ℕ → Bool) → ℕ → Machine → Outcome Machine
vector_mask remove_ok vector m =
    if not (has_eventfd m.dev m.dev.vm_id vector) then fault else elim m.dev.msi_vectors [
      | none ↦ fault
      | some vs ↦
          if not (vs vector).has_pdev
          then ok (emit Effect.error m)
          else if not (vs vector).unmasked
          then abort
          else if not (remove_ok vector)
          then ok (emit Effect.error m)
          else ok (
              emit (remove_irqfd vector) (record m {
                dev = record (m.dev) {
                  msi_vectors = some (update vs vector (record (vs vector) { unmasked = false }));
                };
              }))
    ]

-- The success of `kvm_irqchip_update_msi_route` and of `kvm_irqchip_add_irqfd_notifier_gsi`.
pub record KvmCalls : Type 0 where
  pub update_ok : ℕ → Bool
  pub irqfd_ok : ℕ → Bool

-- A result below 0 of KVM is passed on without a report.
abbrev pub refused : Machine → Outcome Reply
refused m = ok (record { failed = true; machine = m })

-- `ivshmem_vector_unmask`; `msg` is the address and the data of the message, and the reply has
-- failed where the code returns a negative number.
unfoldable pub vector_unmask : KvmCalls → ℕ → ℕ × ℕ → Machine → Outcome Reply
vector_unmask kvm vector (addr, word) m =
    if not (has_eventfd m.dev m.dev.vm_id vector) then fault else elim m.dev.msi_vectors [
      | none ↦ fault
      | some vs ↦
          if not (vs vector).has_pdev
          then failure m
          else if (vs vector).unmasked
          then abort
          else if not (kvm.update_ok (vs vector).virq)
          then refused m
          else let routed = emit commit_routes (emit (update_route (vs vector).virq addr word) m) in
            if not (kvm.irqfd_ok vector)
            then refused routed
            else success (
                emit (add_irqfd vector) (record routed {
                  dev = record (m.dev) {
                    msi_vectors = some (update vs vector (record (vs vector) { unmasked = true }));
                  };
                }))
    ]

-- One round of the loop of `ivshmem_vector_poll`; `masked` is `msix_is_masked`, and `fired` is the
-- result of `event_notifier_test_and_clear`.
unfoldable pub poll_vector : (ℕ → Bool) → (ℕ → Bool) → ℕ → Machine → Outcome Machine
poll_vector masked fired vector m =
    if not (has_eventfd m.dev m.dev.vm_id vector)
    then fault
    else if not (masked vector)
    then ok m
    else let cleared = emit (event_clear vector) m in
      if fired vector then ok (emit (set_pending vector) cleared) else ok cleared

-- The loop at `vector`, with so many left.
unfoldable pub poll_vectors : (ℕ → Bool) → (ℕ → Bool) → ℕ → ℕ → Machine → Outcome Machine
poll_vectors masked fired zero vector m = ok m
poll_vectors masked fired (suc left) vector m =
    poll_vector masked fired vector m >>= poll_vectors masked fired left (vector + 1)

-- `ivshmem_vector_poll`.
unfoldable pub vector_poll : (ℕ → Bool) → (ℕ → Bool) → ℕ → ℕ → Machine → Outcome Machine
vector_poll masked fired start end m =
    let bound = if ltb end m.dev.vectors then end else m.dev.vectors in
    poll_vectors masked fired (bound - start) start m

-- What happens inside `msix_set_vector_notifiers`, a function of QEMU: calls of the three functions,
-- each chosen by whether the ones before have failed, with what KVM and the notifiers answer to it,
-- until it returns, true for success.
pub data Notifying : Type 0 where
  returns : (accepted : Bool) → Notifying
  unmasks : (kvm : KvmCalls) (vector : ℕ) (msg : ℕ × ℕ) (next : Bool → Notifying) → Notifying
  masks : (remove_ok : ℕ → Bool) (vector : ℕ) (next : Notifying) → Notifying
  polls : (masked fired : ℕ → Bool) (start end : ℕ) (next : Notifying) → Notifying

-- The call of `msix_set_vector_notifiers`.
unfoldable pub set_vector_notifiers : Notifying → Machine → Outcome Reply
set_vector_notifiers (returns accepted) m =
    ok (record { failed = not accepted; machine = emit (set_notifiers accepted) m })
set_vector_notifiers (unmasks kvm vector msg next) m =
    vector_unmask kvm vector msg m >>= λ r. set_vector_notifiers (next r.failed) r.machine
set_vector_notifiers (masks remove_ok vector next) m =
    vector_mask remove_ok vector m >>= set_vector_notifiers next
set_vector_notifiers (polls masked fired start end next) m =
    vector_poll masked fired start end m >>= set_vector_notifiers next
