-- ===== src/Irqfd/Stale.antt =====
-- A vector that is left unmasked ends the emulator when MSI-X is switched on again.
-- About qemu_src/hw/misc/idt_ntb_ivshmem.c, lines 1018 to 1046 and 1510 to 1538.
use ntb_cxl.Prelude.{
  ℕ, zero, suc, ◌+◌, ◌<◌, ◌≡◌, ◌≢◌, ◌≤◌, refl, sym, subst, ◌∙◌, arith, Bool, true, false, Option,
  none, some, ltb,
}
use ntb_cxl.Device.{
  Outcome, ok, abort, fault, ◌>>=◌, Returns, Returns-map, Returns-WhenOk, WhenOk, emit, Effect,
  Machine, MsiVector, has_eventfd, IvShmemState, WhenOk-bind,
}
use ntb_cxl.Server.{Host, Reply, add_kvm_msi_virq}
use ntb_cxl.Callbacks.{
  KvmCalls, Notifying, unmasks, set_vector_notifiers, vector_unmask, vector_mask,
}
use ntb_cxl.Irqfd.{remove_kvm_msi_virq, add_routes, finish_routes, enable_irqfd}
use ntb_cxl.Irqfd.Keep.{SamePeers, add_routes_keeps}
use ntb_cxl.Irqfd.Calls.{has_eventfd-SamePeers}
use ntb_cxl.Irqfd.Disable.{
  release_vector, release_vectors, disable_irqfd, IsReleased, disable_irqfd-IsReleased,
}
use ntb_cxl.Irqfd.Undo.{IsRouted, routes_ok, IsAdded, add_routes-IsAdded}

-- Vector `v` is unmasked.
abbrev pub IsUnmasked : ℕ → Option (ℕ → MsiVector) → Type 0
IsUnmasked v none = ⊥
IsUnmasked v (some vs) = (vs v).unmasked ≡ true

add-IsUnmasked :
    (host : Host) (v : ℕ) (i : ℕ) (m : Machine)
    → has_eventfd m.dev m.dev.vm_id v ≡ true
    → IsUnmasked v m.dev.msi_vectors
    → WhenOk (add_kvm_msi_virq host i m) (λ r.
      (has_eventfd r.machine.dev r.machine.dev.vm_id v ≡ true)
      × IsUnmasked v r.machine.dev.msi_vectors)
unfolding add_kvm_msi_virq
add-IsUnmasked host v i m here h = go m.dev.msi_vectors refl h
  where
    go :
        (o : Option (ℕ → MsiVector))
        → m.dev.msi_vectors ≡ o
        → IsUnmasked v o
        → WhenOk (add_kvm_msi_virq host i m) (λ r.
          (has_eventfd r.machine.dev r.machine.dev.vm_id v ≡ true)
          × IsUnmasked v r.machine.dev.msi_vectors)
    go none e k = absurd k
    go (some vs) e k = rw e (ground (arith, k, here))

unmask-abort :
    (kvm : KvmCalls) (v n : ℕ) (msg : ℕ × ℕ) (m : Machine)
    → has_eventfd m.dev m.dev.vm_id v ≡ true
    → v < n
    → IsRouted n m.dev.msi_vectors
    → IsUnmasked v m.dev.msi_vectors
    → vector_unmask kvm v msg m ≡ abort
unfolding vector_unmask
unmask-abort kvm v n msg m here lt routed stale = go m.dev.msi_vectors refl routed stale
  where
    go :
        (o : Option (ℕ → MsiVector))
        → m.dev.msi_vectors ≡ o
        → IsRouted n o
        → IsUnmasked v o
        → vector_unmask kvm v msg m ≡ abort
    go none e h k = absurd h
    go (some vs) e h k =
        let has : (vs v).has_pdev ≡ true = h v ∙ (ground arith) in rw (here, e, has, k) refl

enable_irqfd-abort :
    (host : Host) (kvm : KvmCalls) (v n : ℕ) (msg : ℕ × ℕ) (next : Bool → Notifying) (m : Machine)
    → m.dev.vm_id < m.dev.nb_peers
    → (m.dev.peers m.dev.vm_id).nb_eventfds ≡ n
    → has_eventfd m.dev m.dev.vm_id v ≡ true
    → v < n
    → IsRouted 0 m.dev.msi_vectors
    → IsUnmasked v m.dev.msi_vectors
    → routes_ok host n 0 ≡ true
    → enable_irqfd host (unmasks kvm v msg next) m ≡ abort
unfolding enable_irqfd finish_routes set_vector_notifiers
enable_irqfd-abort host kvm v n msg next m known count here lt routed stale accepted =
    rw (known_b, count)
      (go (add_routes host n 0 m) (
        Returns-WhenOk _ _ (add_routes host n 0 m) (add_routes-IsAdded host n 0 m routed) (
          add_routes_keeps
            (λ k. (has_eventfd k.dev k.dev.vm_id v ≡ true) × IsUnmasked v k.dev.msi_vectors) host
            (λ i k h. add-IsUnmasked host v i k h.0 h.1) n 0 m (here, stale))))
  where
    known_b : ltb m.dev.vm_id m.dev.nb_peers ≡ true
    known_b = ground arith

    go :
        (o : Outcome (ℕ × Reply))
        → Returns o (λ q.
          IsAdded host n 0 q
          × ((has_eventfd q.1.machine.dev q.1.machine.dev.vm_id v ≡ true)
              × IsUnmasked v q.1.machine.dev.msi_vectors))
        → (o >>= finish_routes (unmasks kvm v msg next)) ≡ abort
    go (ok (i, r)) h =
        let good : r.failed ≡ false = h.0.1 ∙ (rw accepted refl) in
        let all : i ≡ n = h.0.2 good ∙ omega arith in
        rw
          (
            good,
            unmask-abort kvm v n msg r.machine h.1.0 lt
                (subst (λ k. IsRouted k r.machine.dev.msi_vectors) all h.0.0) h.1.1,
          )
          refl
    go abort h = absurd h
    go fault h = absurd h

-- A round of the loop of `ivshmem_disable_irqfd`, where KVM does not let the event of `v` go.
release-IsUnmasked :
    (remove_ok : ℕ → Bool) (d : IvShmemState) (v i : ℕ) (m : Machine)
    → remove_ok v ≡ false
    → SamePeers d m.dev
    → IsUnmasked v m.dev.msi_vectors
    → WhenOk
        (release_vector remove_ok i m)
        (λ m'. SamePeers d m'.dev × IsUnmasked v m'.dev.msi_vectors)
unfolding release_vector vector_mask remove_kvm_msi_virq
release-IsUnmasked remove_ok d v i m refused same stale = go m.dev.msi_vectors refl stale
  where
    go :
        (o : Option (ℕ → MsiVector))
        → m.dev.msi_vectors ≡ o
        → IsUnmasked v o
        → WhenOk
            (release_vector remove_ok i m)
            (λ m'. SamePeers d m'.dev × IsUnmasked v m'.dev.msi_vectors)
    go none e k = absurd k
    go (some vs) e k = rw e (ground (arith, k, refused, same))

release_vectors-IsUnmasked :
    (remove_ok : ℕ → Bool) (d : IvShmemState) (v left i : ℕ) (m : Machine)
    → remove_ok v ≡ false
    → SamePeers d m.dev
    → IsUnmasked v m.dev.msi_vectors
    → WhenOk
        (release_vectors remove_ok left i m)
        (λ m'. SamePeers d m'.dev × IsUnmasked v m'.dev.msi_vectors)
unfolding release_vectors
release_vectors-IsUnmasked remove_ok d v zero i m refused same stale = (same, stale)
release_vectors-IsUnmasked remove_ok d v (suc left) i m refused same stale =
    WhenOk-bind (λ k. SamePeers d k.dev × IsUnmasked v k.dev.msi_vectors)
      (λ m'. SamePeers d m'.dev × IsUnmasked v m'.dev.msi_vectors) (release_vector remove_ok i m)
      (release_vectors remove_ok left (i + 1))
      (release-IsUnmasked remove_ok d v i m refused same stale)
      (λ k h. release_vectors-IsUnmasked remove_ok d v left (i + 1) k refused h.0 h.1)

pub released-IsRouted :
    (n : ℕ) (vs : ℕ → MsiVector) (o : Option (ℕ → MsiVector))
    → ((i : ℕ) → (vs i).has_pdev ≡ ltb i n)
    → IsReleased 0 n vs o
    → IsRouted 0 o
released-IsRouted n vs none h k = k
released-IsRouted n vs (some vs') h k = λ i. ground (arith, h i, k i)

disable-IsUnmasked :
    (remove_ok : ℕ → Bool) (v : ℕ) (m : Machine)
    → m.dev.vm_id < m.dev.nb_peers
    → remove_ok v ≡ false
    → IsUnmasked v m.dev.msi_vectors
    → WhenOk
        (disable_irqfd true remove_ok m)
        (λ m'. SamePeers m.dev m'.dev × IsUnmasked v m'.dev.msi_vectors)
unfolding disable_irqfd
disable-IsUnmasked remove_ok v m known refused stale =
    let known_b : ltb m.dev.vm_id m.dev.nb_peers ≡ true = ground arith in
    rw known_b (
      release_vectors-IsUnmasked remove_ok m.dev v (m.dev.peers m.dev.vm_id).nb_eventfds 0
        (emit Effect.unset_notifiers m) refused (refl, refl, refl, refl) stale)

-- A guest ends the emulator by switching MSI-X off and on again: all the `n` connected vectors have
-- a route and `v` is unmasked, and KVM does not let the event of `v` go. Then `ivshmem_disable_irqfd`
-- returns and leaves the vector unmasked, and `ivshmem_enable_irqfd` fails its assertion, when KVM
-- gives the routes again and QEMU unmasks that vector first.
pub enable_irqfd-disable_irqfd :
    (host : Host) (kvm : KvmCalls) (remove_ok : ℕ → Bool) (v n : ℕ) (msg : ℕ × ℕ)
    (next : Bool → Notifying) (m : Machine) (vs : ℕ → MsiVector)
    → m.dev.vm_id < m.dev.nb_peers
    → (m.dev.peers m.dev.vm_id).eventfds ≢ none
    → (m.dev.peers m.dev.vm_id).nb_eventfds ≡ n
    → n ≤ m.dev.vectors
    → m.dev.msi_vectors ≡ some vs
    → ((i : ℕ) → (vs i).has_pdev ≡ ltb i n)
    → v < n
    → (vs v).unmasked ≡ true
    → remove_ok v ≡ false
    → routes_ok host n 0 ≡ true
    → Returns
        (disable_irqfd true remove_ok m)
        (λ m'. enable_irqfd host (unmasks kvm v msg next) m' ≡ abort)
enable_irqfd-disable_irqfd host kvm remove_ok v n msg next m vs known there count few e routed lt
      stale refused accepted =
    Returns-map (disable_irqfd true remove_ok m)
      (λ (m' : Machine)
          (h : IsReleased 0 (m.dev.peers m.dev.vm_id).nb_eventfds vs m'.dev.msi_vectors
            × (SamePeers m.dev m'.dev × IsUnmasked v m'.dev.msi_vectors)).
        let same = h.1.0 in
        enable_irqfd-abort host kvm v n msg next m' (rw (same.1, same.2) known)
          (rw (same.0, same.2) count) (has_eventfd-SamePeers m.dev m'.dev v same here) lt
          (released-IsRouted n vs m'.dev.msi_vectors routed
            (subst (λ k. IsReleased 0 k vs m'.dev.msi_vectors) count h.0))
          h.1.1 accepted)
      (Returns-WhenOk _ _ (disable_irqfd true remove_ok m)
        (disable_irqfd-IsReleased remove_ok m vs known there (rw count few) e)
        (disable-IsUnmasked remove_ok v m known refused (subst (IsUnmasked v) (sym e) stale)))
  where
    here : has_eventfd m.dev m.dev.vm_id v ≡ true
    here = ground arith
