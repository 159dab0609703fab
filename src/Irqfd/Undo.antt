-- ===== src/Irqfd/Undo.antt =====
-- Routes come all or none. About qemu_src/hw/misc/idt_ntb_ivshmem.c, lines 1496 to 1538.
use ntb_cxl.Prelude.{
  ℕ, zero, suc, ◌+◌, ◌≡◌, refl, sym, ap, ◌∙◌, inl, inr, Bool-cases, arith, Bool, true, false, not,
  Option, none, some, ltb, if◌then◌else◌,
}
use ntb_cxl.Device.{ok, Returns, Returns-map, Returns-bind, Machine, MsiVector}
use ntb_cxl.Server.{Host, Reply, add_kvm_msi_virq}
use ntb_cxl.Irqfd.{remove_kvm_msi_virq, undo_routes, add_routes}

-- Exactly the first `n` vectors have a route.
abbrev pub IsRouted : ℕ → Option (ℕ → MsiVector) → Type 0
IsRouted n none = ⊥
IsRouted n (some vs) = (i : ℕ) → (vs i).has_pdev ≡ ltb i n

remove-IsRouted :
    (n : ℕ) (m : Machine) (vs : ℕ → MsiVector)
    → m.dev.msi_vectors ≡ some vs
    → ((i : ℕ) → (vs i).has_pdev ≡ ltb i (suc n))
    → Returns (remove_kvm_msi_virq n m) (λ m'. IsRouted n m'.dev.msi_vectors)
unfolding remove_kvm_msi_virq
remove-IsRouted n m vs e h = rw (e, h n) (ground (arith, h))

pub undo_routes-IsRouted :
    (n : ℕ) (m : Machine)
    → IsRouted n m.dev.msi_vectors
    → Returns (undo_routes n m) (λ m'. IsRouted 0 m'.dev.msi_vectors)
unfolding undo_routes
undo_routes-IsRouted zero m h = h
undo_routes-IsRouted (suc n) m h =
    Returns-bind (λ m'. IsRouted n m'.dev.msi_vectors) (λ m'. IsRouted 0 m'.dev.msi_vectors)
      (remove_kvm_msi_virq n m) (undo_routes n) (first m.dev.msi_vectors refl h)
      (undo_routes-IsRouted n)
  where
    first :
        (o : Option (ℕ → MsiVector))
        → m.dev.msi_vectors ≡ o
        → IsRouted (suc n) o
        → Returns (remove_kvm_msi_virq n m) (λ m'. IsRouted n m'.dev.msi_vectors)
    first none e k = absurd k
    first (some vs) e k = remove-IsRouted n m vs e k

-- KVM gives a route to each of the vectors from `i` on, so many.
abbrev pub routes_ok : Host → ℕ → ℕ → Bool
routes_ok host zero i = true
routes_ok host (suc left) i = elim (host.add_route i) [
  | none ↦ false
  | some _ ↦ routes_ok host left (suc i)
]

-- The loop from `i` on ended at an index below which exactly the vectors have a route, and by an
-- error exactly if KVM refused one.
abbrev pub IsAdded : Host → ℕ → ℕ → ℕ × Reply → Type 0
IsAdded host left i q =
    IsRouted q.0 q.1.machine.dev.msi_vectors
    × (q.1.failed ≡ not (routes_ok host left i))
    × (q.1.failed ≡ false → q.0 ≡ i + left)

-- A vector was added, or refused.
abbrev IsStepped : Host → ℕ → Reply → Type 0
IsStepped host i r =
    IsRouted (if r.failed then i else suc i) r.machine.dev.msi_vectors
    × (r.failed ≡ not (routes_ok host 1 i))

add-IsStepped :
    (host : Host) (i : ℕ) (m : Machine) (vs : ℕ → MsiVector)
    → m.dev.msi_vectors ≡ some vs
    → ((j : ℕ) → (vs j).has_pdev ≡ ltb j i)
    → Returns (add_kvm_msi_virq host i m) (IsStepped host i)
unfolding add_kvm_msi_virq
add-IsStepped host i m vs e h = rw (e, h i) (ground (arith, h))

next-IsAdded :
    (host : Host) (left i : ℕ) (r : Reply)
    → IsStepped host i r
    → (IsRouted (suc i) r.machine.dev.msi_vectors
        → Returns (add_routes host left (suc i) r.machine) (IsAdded host left (suc i)))
    → Returns
        (if r.failed then ok (i, r) else add_routes host left (suc i) r.machine)
        (IsAdded host (suc left) i)
next-IsAdded host left i r s rest = elim (Bool-cases r.failed) [
  | inl bad ↦
      let routed : IsRouted i r.machine.dev.msi_vectors = rw bad at s.0 in
      let refused : not (routes_ok host (suc left) i) ≡ true = ground (arith, s.1) in
      rw bad (routed, sym refused, λ e. cc)
  | inr good ↦
      let routed : IsRouted (suc i) r.machine.dev.msi_vectors = rw good at s.0 in
      let same : routes_ok host left (suc i) ≡ routes_ok host (suc left) i = ground (arith, s.1) in
      rw good (
        Returns-map _
          (λ (q : ℕ × Reply) (a : IsAdded host left (suc i) q).
            (a.0, a.1 ∙ ap not same, λ e. a.2 e ∙ omega arith))
          (rest routed))
]

pub add_routes-IsAdded :
    (host : Host) (left i : ℕ) (m : Machine)
    → IsRouted i m.dev.msi_vectors
    → Returns (add_routes host left i m) (IsAdded host left i)
unfolding add_routes
add_routes-IsAdded host zero i m h = (h, refl, λ _. omega arith)
add_routes-IsAdded host (suc left) i m h =
    Returns-bind (IsStepped host i) (IsAdded host (suc left) i) (add_kvm_msi_virq host i m) _
      (first m.dev.msi_vectors refl h)
      (λ r s. next-IsAdded host left i r s (add_routes-IsAdded host left (suc i) r.machine))
  where
    first :
        (o : Option (ℕ → MsiVector))
        → m.dev.msi_vectors ≡ o
        → IsRouted i o
        → Returns (add_kvm_msi_virq host i m) (IsStepped host i)
    first none e k = absurd k
    first (some vs) e k = add-IsStepped host i m vs e k
