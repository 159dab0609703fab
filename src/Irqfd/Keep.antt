-- ===== src/Irqfd/Keep.antt =====
-- What the loops of `ivshmem_enable_irqfd` keep of the device.
-- About qemu_src/hw/misc/idt_ntb_ivshmem.c, lines 1496 to 1538.
use ntb_cxl.Prelude.{
  ℕ, zero, suc, ◌≡◌, ◌∙◌, refl, arith, Bool, true, false, Option, none, some, if◌then◌else◌, List,
  [], ◌∷◌,
}
use ntb_cxl.Device.{
  Outcome, WhenOk, WhenOk-bind, ok, abort, fault, Machine, MsiVector, IvShmemState, Effect,
  set_notifiers, unset_notifiers,
}
use ntb_cxl.Server.{Host, Reply, add_kvm_msi_virq}
use ntb_cxl.Irqfd.{remove_kvm_msi_virq, undo_routes, add_routes}

-- The device's place in the table of peers.
abbrev pub SamePeers : IvShmemState → IvShmemState → Type 0
SamePeers d d' =
    (d'.peers ≡ d.peers)
    × (d'.nb_peers ≡ d.nb_peers)
    × (d'.vm_id ≡ d.vm_id)
    × (d'.vectors ≡ d.vectors)

pub trans-SamePeers : (d e f : IvShmemState) → SamePeers d e → SamePeers e f → SamePeers d f
trans-SamePeers d e f h k = (k.0 ∙ h.0, k.1 ∙ h.1, k.2 ∙ h.2, k.3 ∙ h.3)

-- No vector is unmasked.
abbrev pub IsMasked : Option (ℕ → MsiVector) → Type 0
IsMasked none = ⊥
IsMasked (some vs) = (i : ℕ) → (vs i).unmasked ≡ false

-- Both loops keep what each round keeps.
module _ (P : Machine → Type 0) where
  pub undo_routes_keeps :
      ((i : ℕ) (m : Machine) → P m → WhenOk (remove_kvm_msi_virq i m) (λ m'. P m'))
      → (n : ℕ) (m : Machine) → P m
      → WhenOk (undo_routes n m) (λ m'. P m')
  unfolding undo_routes
  undo_routes_keeps step zero m h = h
  undo_routes_keeps step (suc n) m h =
      WhenOk-bind (λ k. P k) (λ m'. P m') (remove_kvm_msi_virq n m) (undo_routes n) (step n m h)
        (undo_routes_keeps step n)

  pub add_routes_keeps :
      (host : Host)
      → ((i : ℕ) (m : Machine) → P m → WhenOk (add_kvm_msi_virq host i m) (λ r. P r.machine))
      → (left i : ℕ) (m : Machine) → P m
      → WhenOk (add_routes host left i m) (λ q. P q.1.machine)
  unfolding add_routes
  add_routes_keeps host step zero i m h = h
  add_routes_keeps host step (suc left) i m h =
      WhenOk-bind (λ r. P r.machine) (λ q. P q.1.machine) (add_kvm_msi_virq host i m) _ (step i m h)
        (λ r k. next r k (add_routes_keeps host step left (suc i) r.machine k))
    where
      next :
          (r : Reply)
          → P r.machine
          → WhenOk (add_routes host left (suc i) r.machine) (λ q. P q.1.machine)
          → WhenOk
              (if r.failed then ok (i, r) else add_routes host left (suc i) r.machine)
              (λ q. P q.1.machine)
      next r k later =
          elim r.failed
            as (λ b.
              WhenOk (if b then ok (i, r) else add_routes host left (suc i) r.machine)
                (λ q. P q.1.machine)) [ true ↦ k | false ↦ later ]

-- The answer of the latest `msix_set_vector_notifiers`, unless it has been unset.
abbrev pub answer : List Effect → Option Bool
answer [] = none
answer (set_notifiers accepted ∷ effects) = some accepted
answer (unset_notifiers ∷ effects) = none
answer (_ ∷ effects) = answer effects

-- The device keeps its place, and nothing has been answered since.
abbrev pub IsQuiet : IvShmemState → Option Bool → Machine → Type 0
IsQuiet d o m = SamePeers d m.dev × (answer m.effects ≡ o)

remove-IsQuiet :
    (d : IvShmemState) (o : Option Bool) (i : ℕ) (m : Machine)
    → IsQuiet d o m
    → WhenOk (remove_kvm_msi_virq i m) (IsQuiet d o)
unfolding remove_kvm_msi_virq
remove-IsQuiet d o i m h = ground arith

pub undo_routes-IsQuiet :
    (d : IvShmemState) (o : Option Bool) (n : ℕ) (m : Machine)
    → IsQuiet d o m
    → WhenOk (undo_routes n m) (IsQuiet d o)
undo_routes-IsQuiet d o = undo_routes_keeps (IsQuiet d o) (remove-IsQuiet d o)

add-IsQuiet :
    (host : Host) (d : IvShmemState) (o : Option Bool) (i : ℕ) (m : Machine)
    → IsQuiet d o m
    → WhenOk (add_kvm_msi_virq host i m) (λ r. IsQuiet d o r.machine)
unfolding add_kvm_msi_virq
add-IsQuiet host d o i m h = ground arith

add-IsMasked :
    (host : Host) (i : ℕ) (m : Machine)
    → IsMasked m.dev.msi_vectors
    → WhenOk (add_kvm_msi_virq host i m) (λ r. IsMasked r.machine.dev.msi_vectors)
unfolding add_kvm_msi_virq
add-IsMasked host i m h = go m.dev.msi_vectors refl h
  where
    go :
        (o : Option (ℕ → MsiVector))
        → m.dev.msi_vectors ≡ o
        → IsMasked o
        → WhenOk (add_kvm_msi_virq host i m) (λ r. IsMasked r.machine.dev.msi_vectors)
    go none e k = absurd k
    go (some vs) e k = rw e (ground (arith, k))

-- Adding routes unmasks no vector and asks nothing of `msix_set_vector_notifiers`.
pub add_routes-IsQuiet :
    (host : Host) (d : IvShmemState) (o : Option Bool) (left i : ℕ) (m : Machine)
    → IsMasked m.dev.msi_vectors × IsQuiet d o m
    → WhenOk
        (add_routes host left i m)
        (λ q. IsMasked q.1.machine.dev.msi_vectors × IsQuiet d o q.1.machine)
add_routes-IsQuiet host d o =
    add_routes_keeps (λ m. IsMasked m.dev.msi_vectors × IsQuiet d o m) host
      (λ i m h.
        both (add_kvm_msi_virq host i m) (add-IsMasked host i m h.0) (add-IsQuiet host d o i m h.1))
  where
    both :
        (out : Outcome Reply)
        → WhenOk out (λ r. IsMasked r.machine.dev.msi_vectors)
        → WhenOk out (λ r. IsQuiet d o r.machine)
        → WhenOk out (λ r. IsMasked r.machine.dev.msi_vectors × IsQuiet d o r.machine)
    both (ok r) x y = (x, y)
    both abort x y = tt
    both fault x y = tt
