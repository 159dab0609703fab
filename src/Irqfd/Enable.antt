-- ===== src/Irqfd/Enable.antt =====
-- What `ivshmem_enable_irqfd` leaves.
-- About qemu_src/hw/misc/idt_ntb_ivshmem.c, lines 1510 to 1538.
use ntb_cxl.Prelude.{
  ℕ, ◌<◌, ◌≡◌, ◌≢◌, refl, sym, subst, ◌∙◌, inl, inr, Bool-cases, arith, Bool, true, false, not,
  Option, none, some, ltb, if◌then◌else◌,
}
use ntb_cxl.Device.{
  ok, emit, Effect, Returns, Returns-map, Returns-bind, Returns-WhenOk, Machine, MsiVector,
  IvShmemState, has_eventfd,
}
use ntb_cxl.Server.{Host, Reply}
use ntb_cxl.Callbacks.{Notifying, set_vector_notifiers}
use ntb_cxl.Irqfd.Keep.{
  SamePeers, IsMasked, answer, IsQuiet, undo_routes-IsQuiet, add_routes-IsQuiet,
}
use ntb_cxl.Irqfd.Calls.{IsOrderly, IsReady, IsCalled, set_vector_notifiers-IsCalled}
use ntb_cxl.Irqfd.{undo_routes, add_routes, finish_routes, enable_irqfd}
use ntb_cxl.Irqfd.Undo.{IsRouted, routes_ok, IsAdded, undo_routes-IsRouted, add_routes-IsAdded}

-- What `ivshmem_enable_irqfd` leaves: KVM has refused a route and no vector has one, or
-- `msix_set_vector_notifiers` has answered and all `n` vectors have a route, or none of them.
pub data IsEnabled (host : Host) (n : ℕ) (m' : Machine) : Type 0 where
  unrouted :
      routes_ok host n 0 ≡ false
      → IsRouted 0 m'.dev.msi_vectors
      → answer m'.effects ≡ none
      → IsEnabled host n m'
  answered :
      (accepted : Bool)
      → routes_ok host n 0 ≡ true
      → IsRouted (if accepted then n else 0) m'.dev.msi_vectors
      → answer m'.effects ≡ some accepted
      → IsEnabled host n m'

-- The routes of the first vectors are taken back, and the answer stands.
undo-IsQuiet :
    (d : IvShmemState) (o : Option Bool) (n : ℕ) (m : Machine)
    → IsRouted n m.dev.msi_vectors
    → IsQuiet d o m
    → Returns (undo_routes n m) (λ m'. IsRouted 0 m'.dev.msi_vectors × IsQuiet d o m')
undo-IsQuiet d o n m routed quiet =
    Returns-WhenOk _ _ (undo_routes n m) (undo_routes-IsRouted n m routed)
      (undo_routes-IsQuiet d o n m quiet)

HasNotifiers : ℕ → IvShmemState → Type 0
HasNotifiers n d = (v : ℕ) → v < n → has_eventfd d d.vm_id v ≡ true

ready_lem :
    (n : ℕ) (d : IvShmemState) (m : Machine)
    → IsRouted n m.dev.msi_vectors
    → IsMasked m.dev.msi_vectors
    → SamePeers d m.dev
    → IsReady (λ _. true) (λ _. false) n d m
ready_lem n d m routed masked same = go m.dev.msi_vectors refl routed masked
  where
    go :
        (o : Option (ℕ → MsiVector))
        → m.dev.msi_vectors ≡ o
        → IsRouted n o
        → IsMasked o
        → IsReady (λ _. true) (λ _. false) n d m
    go none e h k = absurd h
    go (some vs) e h k = record {
      vs = vs;
      there = e;
      routed = h;
      masked = λ i new. k i;
      unmasked = λ i old. cc;
      same = same;
    }

after-IsEnabled :
    (host : Host) (n i : ℕ) (d : IvShmemState) (q : Reply)
    → i ≡ n
    → routes_ok host n 0 ≡ true
    → IsCalled n d q
    → Returns
        (if q.failed then undo_routes i (emit Effect.error q.machine) else ok q.machine)
        (λ m'. IsEnabled host n m' × SamePeers d m'.dev)
after-IsEnabled host n i d q all ok_all called = go q.failed called.answered
  where
    routed : IsRouted n q.machine.dev.msi_vectors
    routed = subst (IsRouted n) (sym called.there) called.routed

    go :
        (b : Bool)
        → answer q.machine.effects ≡ some (not b)
        → Returns
            (if b then undo_routes i (emit Effect.error q.machine) else ok q.machine)
            (λ m'. IsEnabled host n m' × SamePeers d m'.dev)
    go false e = (answered true ok_all routed e, called.same)
    go true e =
        Returns-map _
          (λ (m' : Machine) (k : IsRouted 0 m'.dev.msi_vectors × IsQuiet d (some false) m').
            (answered false ok_all k.0 k.1.1, k.1.0))
          (undo-IsQuiet d (some false) i (emit Effect.error q.machine)
            (subst (λ k. IsRouted k q.machine.dev.msi_vectors) (sym all) routed) (called.same, e))

finish-IsEnabled :
    (host : Host) (notifying : Notifying) (n : ℕ) (d : IvShmemState) (q : ℕ × Reply)
    → HasNotifiers d.vectors d
    → IsOrderly d.vectors (λ _. true) (λ _. false) notifying
    → IsAdded host n 0 q
    → IsMasked q.1.machine.dev.msi_vectors × IsQuiet d none q.1.machine
    → Returns (finish_routes notifying q) (λ m'. IsEnabled host n m' × SamePeers d m'.dev)
unfolding finish_routes HasNotifiers
finish-IsEnabled host notifying n d (i, r) here orderly (routed, failed, end) (masked, quiet) =
    elim (Bool-cases r.failed) [
      | inl bad ↦
          let none_ok : routes_ok host n 0 ≡ false = ground arith in
          rw bad (
            Returns-map _
              (λ (m' : Machine) (k : IsRouted 0 m'.dev.msi_vectors × IsQuiet d none m').
                (unrouted none_ok k.0 k.1.1, k.1.0))
              (undo-IsQuiet d none i r.machine routed quiet))
      | inr good ↦
          let all_ok : routes_ok host n 0 ≡ true = ground arith in
          let all : i ≡ n = end good ∙ omega arith in
          rw good (
            Returns-bind (IsCalled n d) (λ m'. IsEnabled host n m' × SamePeers d m'.dev)
              (set_vector_notifiers notifying r.machine) _
              (set_vector_notifiers-IsCalled n d (λ _. true) (λ _. false) notifying r.machine here
                orderly
                (ready_lem n d r.machine
                  (subst (λ k. IsRouted k r.machine.dev.msi_vectors) all routed) masked quiet.0))
              (λ q called. after-IsEnabled host n i d q all all_ok called))
    ]

-- `ivshmem_enable_irqfd` is all or nothing, whatever KVM answers. From a device in whose array no
-- vector has a route and none is unmasked, and which has no notifiers yet, it returns. If KVM has
-- refused a route, no vector has one, and `msix_set_vector_notifiers` was not called; otherwise that
-- was called and answered, and all the connected vectors have a route if it accepted the notifiers,
-- and none if it did not. The table of peers is as it was. Inside that call QEMU unmasks and masks
-- vectors of the device in any order, each at most once.
pub enable_irqfd-IsEnabled :
    (host : Host) (notifying : Notifying) (n : ℕ) (m : Machine)
    → m.dev.vm_id < m.dev.nb_peers
    → (m.dev.peers m.dev.vm_id).eventfds ≢ none
    → (m.dev.peers m.dev.vm_id).nb_eventfds ≡ n
    → IsRouted 0 m.dev.msi_vectors
    → IsMasked m.dev.msi_vectors
    → answer m.effects ≡ none
    → IsOrderly m.dev.vectors (λ _. true) (λ _. false) notifying
    → Returns (enable_irqfd host notifying m) (λ m'. IsEnabled host n m' × SamePeers m.dev m'.dev)
unfolding enable_irqfd HasNotifiers
enable_irqfd-IsEnabled host notifying n m known there count routed masked unanswered orderly =
    rw (known_b, count)
      (Returns-bind
        (λ q.
          IsAdded host n 0 q
          × (IsMasked q.1.machine.dev.msi_vectors × IsQuiet m.dev none q.1.machine))
        (λ m'. IsEnabled host n m' × SamePeers m.dev m'.dev) (add_routes host n 0 m)
        (finish_routes notifying)
        (Returns-WhenOk _ _ (add_routes host n 0 m) (add_routes-IsAdded host n 0 m routed) (
          add_routes-IsQuiet host m.dev none n 0 m
            (masked, ((refl, refl, refl, refl), unanswered))))
        (λ q h. finish-IsEnabled host notifying n m.dev q (λ v lt. ground arith) orderly h.0 h.1))
  where
    known_b : ltb m.dev.vm_id m.dev.nb_peers ≡ true
    known_b = ground arith
