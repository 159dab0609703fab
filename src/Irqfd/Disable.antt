-- ===== src/Irqfd/Disable.antt =====
-- `ivshmem_disable_irqfd`, and that no route is left.
-- About qemu_src/hw/misc/idt_ntb_ivshmem.c, lines 1540 to 1563.
use ntb_cxl.Prelude.{
  ℕ, zero, suc, ◌+◌, ◌<◌, ◌≡◌, ◌≢◌, ◌≤◌, ◌∙◌, refl, subst, arith, Bool, true, false, ◌&&◌, not,
  Option, none, some, ltb, leb, if◌then◌else◌,
}
use ntb_cxl.Device.{
  Outcome, ok, fault, ◌>>=◌, emit, Effect, Returns, Returns-map, Returns-bind, Machine, MsiVector,
  has_eventfd, WhenOk, Returns-WhenOk, IvShmemState,
}
use ntb_cxl.Callbacks.{vector_mask}
use ntb_cxl.Irqfd.{remove_kvm_msi_virq}

-- One round of the loop of `ivshmem_disable_irqfd`.
unfoldable pub release_vector : (ℕ → Bool) → ℕ → Machine → Outcome Machine
unfolding vector_mask remove_kvm_msi_virq
release_vector remove_ok i m = elim m.dev.msi_vectors [
  | none ↦ fault
  | some vs ↦
      (if (vs i).unmasked then vector_mask remove_ok i m else ok m) >>= remove_kvm_msi_virq i
]

-- The loop at `i`, with so many vectors left.
unfoldable pub release_vectors : (ℕ → Bool) → ℕ → ℕ → Machine → Outcome Machine
release_vectors remove_ok zero i m = ok m
release_vectors remove_ok (suc left) i m =
    release_vector remove_ok i m >>= release_vectors remove_ok left (i + 1)

-- `ivshmem_disable_irqfd`; `in_use` is `pdev->msix_vector_use_notifier != NULL`.
-- `msix_unset_vector_notifiers` calls nothing of the device, for MSI-X is off.
unfoldable pub disable_irqfd : Bool → (ℕ → Bool) → Machine → Outcome Machine
disable_irqfd in_use remove_ok m =
    if not in_use
    then ok m
    else if ltb m.dev.vm_id m.dev.nb_peers
    then release_vectors remove_ok (m.dev.peers m.dev.vm_id).nb_eventfds 0
        (emit Effect.unset_notifiers m)
    else fault

-- From the vectors `vs`, exactly those from `low` up to `high`, without it, have lost their route.
abbrev pub IsReleased : ℕ → ℕ → (ℕ → MsiVector) → Option (ℕ → MsiVector) → Type 0
IsReleased low high vs none = ⊥
IsReleased low high vs (some vs') =
    (j : ℕ) → (vs' j).has_pdev ≡ (if leb low j && ltb j high then false else (vs j).has_pdev)

release_vector-IsReleased :
    (remove_ok : ℕ → Bool) (i : ℕ) (m : Machine) (vs : ℕ → MsiVector)
    → m.dev.msi_vectors ≡ some vs
    → has_eventfd m.dev m.dev.vm_id i ≡ true
    → Returns (release_vector remove_ok i m) (λ m'. IsReleased i (i + 1) vs m'.dev.msi_vectors)
unfolding release_vector
release_vector-IsReleased remove_ok i m vs e here = rw e (ground arith)

release_vector-eventfds :
    (remove_ok : ℕ → Bool) (i : ℕ) (m : Machine)
    → WhenOk
        (release_vector remove_ok i m)
        (λ m'. (v : ℕ) → has_eventfd m'.dev m'.dev.vm_id v ≡ has_eventfd m.dev m.dev.vm_id v)
unfolding release_vector
release_vector-eventfds remove_ok i m = ground arith

HasEventfds : ℕ → ℕ → IvShmemState → Type 0
HasEventfds low high d = (v : ℕ) → low ≤ v → v < high → has_eventfd d d.vm_id v ≡ true

release_vectors-IsReleased :
    (remove_ok : ℕ → Bool) (left i : ℕ) (m : Machine) (vs : ℕ → MsiVector)
    → m.dev.msi_vectors ≡ some vs
    → HasEventfds i (i + left) m.dev
    → Returns
        (release_vectors remove_ok left i m)
        (λ m'. IsReleased i (i + left) vs m'.dev.msi_vectors)
unfolding release_vectors HasEventfds
release_vectors-IsReleased remove_ok zero i m vs e here = rw e (λ j. ground arith)
release_vectors-IsReleased remove_ok (suc left) i m vs e here =
    Returns-bind
      (λ n.
        IsReleased i (i + 1) vs n.dev.msi_vectors
        × ((v : ℕ) → has_eventfd n.dev n.dev.vm_id v ≡ has_eventfd m.dev m.dev.vm_id v))
      (λ m'. IsReleased i (i + suc left) vs m'.dev.msi_vectors) (release_vector remove_ok i m)
      (release_vectors remove_ok left (i + 1))
      (Returns-WhenOk _ _ (release_vector remove_ok i m)
        (release_vector-IsReleased remove_ok i m vs e (here i (omega arith) (omega arith)))
        (release_vector-eventfds remove_ok i m))
      (λ n h. rest n n.dev.msi_vectors refl h.0 (λ vs' at.
        release_vectors-IsReleased remove_ok left (i + 1) n vs' at
          (λ v low high. h.1 v ∙ here v (omega arith) (omega arith))))
  where
    join :
        (vs' : ℕ → MsiVector) (o : Option (ℕ → MsiVector))
        → IsReleased i (i + 1) vs (some vs')
        → IsReleased (i + 1) (i + 1 + left) vs' o
        → IsReleased i (i + suc left) vs o
    join vs' none h k = k
    join vs' (some vs'') h k = λ j. ground (arith, h j, k j)

    rest :
        (n : Machine) (o : Option (ℕ → MsiVector))
        → n.dev.msi_vectors ≡ o
        → IsReleased i (i + 1) vs o
        → ((vs' : ℕ → MsiVector)
            → n.dev.msi_vectors ≡ some vs'
            → Returns
                (release_vectors remove_ok left (i + 1) n)
                (λ m'. IsReleased (i + 1) (i + 1 + left) vs' m'.dev.msi_vectors))
        → Returns
            (release_vectors remove_ok left (i + 1) n)
            (λ m'. IsReleased i (i + suc left) vs m'.dev.msi_vectors)
    rest n none at h again = absurd h
    rest n (some vs') at h again =
        Returns-map _ (λ (m' : Machine) k. join vs' m'.dev.msi_vectors h k) (again vs' at)

-- `ivshmem_disable_irqfd`, with MSI-X notifiers in use, returns and takes the route from each
-- connected vector, whether it was masked or not and whether or not KVM lets its event go; no
-- other vector changes its route. The device has its array of descriptors, and no more of them
-- connected than it has vectors.
pub disable_irqfd-IsReleased :
    (remove_ok : ℕ → Bool) (m : Machine) (vs : ℕ → MsiVector)
    → m.dev.vm_id < m.dev.nb_peers
    → (m.dev.peers m.dev.vm_id).eventfds ≢ none
    → (m.dev.peers m.dev.vm_id).nb_eventfds ≤ m.dev.vectors
    → m.dev.msi_vectors ≡ some vs
    → Returns
        (disable_irqfd true remove_ok m)
        (λ m'. IsReleased 0 (m.dev.peers m.dev.vm_id).nb_eventfds vs m'.dev.msi_vectors)
unfolding disable_irqfd HasEventfds
disable_irqfd-IsReleased remove_ok m vs known there few e =
    let n = (m.dev.peers m.dev.vm_id).nb_eventfds in
    let unset = emit Effect.unset_notifiers m in
    let all = release_vectors-IsReleased remove_ok n 0 unset vs e (λ v low high. ground arith) in
    rw known_b (
      subst
        (λ (k : ℕ).
          Returns (release_vectors remove_ok n 0 unset) λ m'. IsReleased 0 k vs m'.dev.msi_vectors)
        {x = 0 + n} {y = n} (omega arith) all)
  where
    known_b : ltb m.dev.vm_id m.dev.nb_peers ≡ true
    known_b = ground arith
