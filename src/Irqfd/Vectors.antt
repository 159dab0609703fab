-- ===== src/Irqfd/Vectors.antt =====
-- What polling and unmasking vectors changes.
-- About qemu_src/hw/misc/idt_ntb_ivshmem.c, lines 1018 to 1092.
use ntb_cxl.Prelude.{
  ℕ, zero, suc, ◌+◌, ◌-◌, ◌<◌, ◌≤◌, ◌≡◌, refl, arith, Bool, true, false, ◌&&◌, none, some, Option,
  List, sym, subst, ◌∙◌, Bool-cases, inl, inr, [], ◌∷◌, ltb, leb, ◌==◌, if◌then◌else◌,
}
use ntb_cxl.Device.{
  ◌>>=◌, Effect, set_pending, event_clear, Returns, Returns-map, Returns-bind, Machine, MsiVector,
  has_eventfd,
}
use ntb_cxl.Callbacks.{KvmCalls, vector_mask, vector_unmask, poll_vector, poll_vectors, vector_poll}

-- How often a vector was made pending, and its notifier cleared.
abbrev pub pending_count : ℕ → List Effect → ℕ
pending_count v [] = 0
pending_count v (set_pending w ∷ effects) = (if v == w then 1 else 0) + pending_count v effects
pending_count v (_ ∷ effects) = pending_count v effects

abbrev pub clear_count : ℕ → List Effect → ℕ
clear_count v [] = 0
clear_count v (event_clear w ∷ effects) = (if v == w then 1 else 0) + clear_count v effects
clear_count v (_ ∷ effects) = clear_count v effects

-- All other effects.
abbrev pub others : List Effect → List Effect
others [] = []
others (set_pending w ∷ effects) = others effects
others (event_clear w ∷ effects) = others effects
others (e ∷ effects) = e ∷ others effects

-- Exactly the vectors from `low` up to `high`, without it, that are masked have had their notifiers
-- cleared, once, those of them that have an event have become pending, once, and nothing else has
-- changed of the device and of the shared memory, and no other effect has come.
pub record IsPolled (masked fired : ℕ → Bool) (low high : ℕ) (m m' : Machine) : Type 0 where
  pub device : m'.dev ≡ m.dev
  pub memory : m'.shm ≡ m.shm
  pub pending :
      (v : ℕ)
      → pending_count v m'.effects
        ≡ (if leb low v && ltb v high && masked v && fired v then 1 else 0)
          + pending_count v m.effects
  pub clears :
      (v : ℕ)
      → clear_count v m'.effects
        ≡ (if leb low v && ltb v high && masked v then 1 else 0) + clear_count v m.effects
  pub rest : others m'.effects ≡ others m.effects

poll_vector-IsPolled :
    (masked fired : ℕ → Bool) (vector : ℕ) (m : Machine)
    → has_eventfd m.dev m.dev.vm_id vector ≡ true
    → Returns (poll_vector masked fired vector m) (IsPolled masked fired vector (vector + 1) m)
unfolding poll_vector
poll_vector-IsPolled masked fired vector m here = rw here (elim (Bool-cases (masked vector)) [
  | inl on ↦ rw on (elim (Bool-cases (fired vector)) [
    | inl event ↦ rw event (record {
      device = refl;
      memory = refl;
      pending = λ v. ground arith;
      clears = λ v. ground arith;
      rest = refl;
    })
    | inr quiet ↦ rw quiet (record {
      device = refl;
      memory = refl;
      pending = λ v. ground arith;
      clears = λ v. ground arith;
      rest = refl;
    })
  ])
  | inr off ↦ rw off (record {
    device = refl;
    memory = refl;
    pending = λ v. ground arith;
    clears = λ v. ground arith;
    rest = refl;
  })
])

join-IsPolled :
    (masked fired : ℕ → Bool) (low mid high : ℕ) (m n m' : Machine)
    → low ≤ mid
    → mid ≤ high
    → IsPolled masked fired low mid m n
    → IsPolled masked fired mid high n m'
    → IsPolled masked fired low high m m'
join-IsPolled masked fired low mid high m n m' first second h k = record {
  device = k.device ∙ h.device;
  memory = k.memory ∙ h.memory;
  pending = λ v. k.pending v ∙ (ground (arith, h.pending v));
  clears = λ v. k.clears v ∙ (ground (arith, h.clears v));
  rest = k.rest ∙ h.rest;
}

pub poll_vectors-IsPolled :
    (masked fired : ℕ → Bool) (left vector : ℕ) (m : Machine)
    → ((v : ℕ) → vector ≤ v → v < vector + left → has_eventfd m.dev m.dev.vm_id v ≡ true)
    → Returns
        (poll_vectors masked fired left vector m)
        (IsPolled masked fired vector (vector + left) m)
unfolding poll_vectors
poll_vectors-IsPolled masked fired zero vector m h = record {
  device = refl;
  memory = refl;
  pending = λ v. ground arith;
  clears = λ v. ground arith;
  rest = refl;
}
poll_vectors-IsPolled masked fired (suc left) vector m h =
    Returns-bind (IsPolled masked fired vector (vector + 1) m)
      (IsPolled masked fired vector (vector + suc left) m) (poll_vector masked fired vector m)
      (poll_vectors masked fired left (vector + 1))
      (poll_vector-IsPolled masked fired vector m (h vector (omega arith) (omega arith)))
      (λ n k.
        Returns-map _
          (λ m' k'.
            subst (λ high. IsPolled masked fired vector high m m') (omega arith)
              (join-IsPolled masked fired vector (vector + 1) (vector + 1 + left) m n m'
                (omega arith) (omega arith) k k'))
          (poll_vectors-IsPolled masked fired left (vector + 1) n (λ v low high.
            subst (λ d. has_eventfd d d.vm_id v ≡ true) (sym k.device)
              (h v (omega arith) (omega arith)))))

abbrev pub IsExactly : (ℕ → Bool) → (ℕ → Bool) → ℕ → ℕ → Machine → Machine → Type 0
IsExactly masked fired start end m m' =
    (m'.dev ≡ m.dev)
    × (m'.shm ≡ m.shm)
    × ((v : ℕ)
        → pending_count v m'.effects
          ≡ (if leb start v && ltb v end && ltb v m.dev.vectors && masked v && fired v
              then 1
              else 0)
            + pending_count v m.effects)
    × ((v : ℕ)
        → clear_count v m'.effects
          ≡ (if leb start v && ltb v end && ltb v m.dev.vectors && masked v then 1 else 0)
            + clear_count v m.effects)
    × (others m'.effects ≡ others m.effects)

-- `ivshmem_vector_poll` returns for any range, however large. Of the vectors of the range, below the
-- number that the device has, it clears the notifier of exactly those that are masked, once, and
-- makes pending exactly those of them that had an event, once. The device and the shared memory are
-- as they were, and no other effect comes. The device is in its table of peers, with its array of at
-- least one descriptor.
pub vector_poll-IsPolled :
    (masked fired : ℕ → Bool) (start end : ℕ) (m : Machine)
    → has_eventfd m.dev m.dev.vm_id 0 ≡ true
    → Returns (vector_poll masked fired start end m) (IsExactly masked fired start end m)
unfolding vector_poll
vector_poll-IsPolled masked fired start end m here =
    let bound = if ltb end m.dev.vectors then end else m.dev.vectors in
    Returns-map {Q = IsExactly masked fired start end m} _
      (λ m' k. (
        k.device,
        k.memory,
        λ v. k.pending v ∙ (ground arith),
        λ v. k.clears v ∙ (ground arith),
        k.rest,
      ))
      (poll_vectors-IsPolled masked fired (bound - start) start m (λ v low high. ground arith))

-- The vectors are as they were in `vs`.
abbrev pub IsRestored : (ℕ → MsiVector) → Option (ℕ → MsiVector) → Type 0
IsRestored vs none = ⊥
IsRestored vs (some vs') =
    (j : ℕ)
    → ((vs' j).has_pdev ≡ (vs j).has_pdev)
      × ((vs' j).virq ≡ (vs j).virq)
      × ((vs' j).unmasked ≡ (vs j).unmasked)

-- A guest that unmasks a vector and masks it again leaves the vectors as they were, where KVM
-- accepts both: the vector has a route and was masked.
pub vector_mask-vector_unmask :
    (kvm : KvmCalls) (remove_ok : ℕ → Bool) (vector : ℕ) (msg : ℕ × ℕ) (m : Machine)
    (vs : ℕ → MsiVector)
    → has_eventfd m.dev m.dev.vm_id vector ≡ true
    → m.dev.msi_vectors ≡ some vs
    → (vs vector).has_pdev ≡ true
    → (vs vector).unmasked ≡ false
    → (kvm.update_ok (vs vector).virq && kvm.irqfd_ok vector && remove_ok vector) ≡ true
    → Returns
        (vector_unmask kvm vector msg m >>= λ r. vector_mask remove_ok vector r.machine)
        (λ m'. IsRestored vs m'.dev.msi_vectors)
unfolding vector_unmask vector_mask
vector_mask-vector_unmask kvm remove_ok vector msg m vs here e routed masked accepted =
    rw e (ground arith)
