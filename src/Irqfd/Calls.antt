-- ===== src/Irqfd/Calls.antt =====
-- The calls inside `msix_set_vector_notifiers` keep the routes, and end.
-- About qemu_src/hw/misc/idt_ntb_ivshmem.c, lines 1018 to 1092 and 1525 to 1532.
use ntb_cxl.Prelude.{
  ℕ, ◌-◌, ◌<◌, ◌≡◌, ◌∙◌, refl, sym, ap, subst, arith, Bool, true, false, not, some, ltb, List,
  if◌then◌else◌, update, Bool-cases, inl, inr,
}
use ntb_cxl.Device.{
  Returns, Returns-map, Returns-bind, Machine, MsiVector, IvShmemState, has_eventfd, Effect,
}
use ntb_cxl.Server.{Reply}
use ntb_cxl.Callbacks.{
  KvmCalls, vector_mask, vector_unmask, vector_poll, Notifying, returns, unmasks, masks, polls,
  set_vector_notifiers,
}
use ntb_cxl.Irqfd.Vectors.{poll_vectors-IsPolled}
use ntb_cxl.Irqfd.Keep.{SamePeers, answer}

-- `msix_set_vector_notifiers` unmasks a vector of the device at most once, and masks it at most once,
-- after it has been unmasked with success.
abbrev pub IsOrderly : ℕ → (ℕ → Bool) → (ℕ → Bool) → Notifying → Type 0
IsOrderly vectors fresh held (returns accepted) = Unit
IsOrderly vectors fresh held (unmasks kvm v msg next) =
    (v < vectors)
    × (fresh v ≡ true)
    × IsOrderly vectors (update fresh v false) held (next true)
    × IsOrderly vectors (update fresh v false) (update held v true) (next false)
IsOrderly vectors fresh held (masks remove_ok v next) =
    (v < vectors) × (held v ≡ true) × IsOrderly vectors fresh (update held v false) next
IsOrderly vectors fresh held (polls masked fired start end next) = IsOrderly vectors fresh held next

-- The first `n` vectors have a route, those that are `fresh` are masked, those that are `held` are
-- not, and the device keeps its place `d` in the table.
pub record IsReady (fresh held : ℕ → Bool) (n : ℕ) (d : IvShmemState) (m : Machine) : Type 0 where
  pub vs : ℕ → MsiVector
  pub there : m.dev.msi_vectors ≡ some vs
  pub routed : (i : ℕ) → (vs i).has_pdev ≡ ltb i n
  pub masked : (i : ℕ) → fresh i ≡ true → (vs i).unmasked ≡ false
  pub unmasked : (i : ℕ) → held i ≡ true → (vs i).unmasked ≡ true
  pub same : SamePeers d m.dev

pub has_eventfd-SamePeers :
    (d e : IvShmemState) (v : ℕ)
    → SamePeers d e
    → has_eventfd d d.vm_id v ≡ true
    → has_eventfd e e.vm_id v ≡ true
has_eventfd-SamePeers d e v same here =
    let path : has_eventfd e e.vm_id v ≡ has_eventfd d d.vm_id v = λ j.
      has_eventfd (record d { peers = same.0 j; nb_peers = same.1 j; vectors = same.3 j })
        (same.2 j) v in
    path ∙ here

module _ (n : ℕ) (d : IvShmemState) where
  fewer-IsReady :
      (fresh held fresh' held' : ℕ → Bool) (m : Machine)
      → ((i : ℕ) → fresh' i ≡ true → fresh i ≡ true)
      → ((i : ℕ) → held' i ≡ true → held i ≡ true)
      → IsReady fresh held n d m
      → IsReady fresh' held' n d m
  fewer-IsReady fresh held fresh' held' m f g ready = record {
    vs = ready.vs;
    there = ready.there;
    routed = ready.routed;
    masked = λ i h. ready.masked i (f i h);
    unmasked = λ i h. ready.unmasked i (g i h);
    same = ready.same;
  }

  -- An answer with the vectors as they were.
  left-IsReady :
      (fresh held : ℕ → Bool) (v : ℕ) (m : Machine) (effects : List Effect)
      → IsReady fresh held n d m
      → IsReady (update fresh v false) held n d (record m { effects = effects })
  left-IsReady fresh held v m effects ready = record {
    vs = ready.vs;
    there = ready.there;
    routed = ready.routed;
    masked = λ i h. ready.masked i (ground arith);
    unmasked = ready.unmasked;
    same = ready.same;
  }

  unmask-IsReady :
      (fresh held : ℕ → Bool) (kvm : KvmCalls) (v : ℕ) (msg : ℕ × ℕ) (m : Machine)
      → has_eventfd d d.vm_id v ≡ true
      → fresh v ≡ true
      → IsReady fresh held n d m
      → Returns (vector_unmask kvm v msg m) λ r.
        IsReady (update fresh v false) (if r.failed then held else update held v true) n d r.machine
  unfolding vector_unmask
  unmask-IsReady fresh held kvm v msg m here new ready =
      rw (has_eventfd-SamePeers d m.dev v ready.same here, ready.there, ready.masked v new)
        (elim (Bool-cases (ready.vs v).has_pdev) [
          | inr unrouted ↦ rw unrouted (left-IsReady fresh held v m _ ready)
          | inl routed ↦ rw routed (elim (Bool-cases (kvm.update_ok (ready.vs v).virq)) [
            | inr stale ↦ rw stale (left-IsReady fresh held v m _ ready)
            | inl updated ↦ rw updated (elim (Bool-cases (kvm.irqfd_ok v)) [
              | inr kept ↦ rw kept (left-IsReady fresh held v m _ ready)
              | inl added ↦ rw added (record {
                vs =
                    update ready.vs v
                      (record { has_pdev = true; virq = (ready.vs v).virq; unmasked = true });
                there = refl;
                routed = λ i. ground (arith, ready.routed i, routed);
                masked = λ i h. ground (arith, ready.masked i);
                unmasked = λ i h. ground (arith, ready.unmasked i);
                same = ready.same;
              })
            ])
          ])
        ])

  mask-IsReady :
      (fresh held : ℕ → Bool) (remove_ok : ℕ → Bool) (v : ℕ) (m : Machine)
      → has_eventfd d d.vm_id v ≡ true
      → held v ≡ true
      → IsReady fresh held n d m
      → Returns (vector_mask remove_ok v m) (IsReady fresh (update held v false) n d)
  unfolding vector_mask
  mask-IsReady fresh held remove_ok v m here old ready =
      let fewer = λ (effects : List Effect).
        fewer-IsReady fresh held fresh (update held v false) (record m { effects = effects })
          (λ i h. h) (λ i h. ground arith)
          (record {
            vs = ready.vs;
            there = ready.there;
            routed = ready.routed;
            masked = ready.masked;
            unmasked = ready.unmasked;
            same = ready.same;
          }) in
      rw (has_eventfd-SamePeers d m.dev v ready.same here, ready.there, ready.unmasked v old)
        (elim (Bool-cases (ready.vs v).has_pdev) [
          | inr unrouted ↦ rw unrouted (fewer _)
          | inl routed ↦ rw routed (elim (Bool-cases (remove_ok v)) [
            | inr kept ↦ rw kept (fewer _)
            | inl removed ↦ rw removed (record {
              vs =
                  update ready.vs v
                    (record { has_pdev = true; virq = (ready.vs v).virq; unmasked = false });
              there = refl;
              routed = λ i. ground (arith, ready.routed i, routed);
              masked = λ i h. ground (arith, ready.masked i);
              unmasked = λ i h. ground (arith, ready.unmasked i);
              same = ready.same;
            })
          ])
        ])

  poll_lem :
      (masked fired : ℕ → Bool) (start end : ℕ) (m : Machine)
      → ((v : ℕ) → v < m.dev.vectors → has_eventfd m.dev m.dev.vm_id v ≡ true)
      → Returns (vector_poll masked fired start end m) (λ m'. m'.dev ≡ m.dev)
  unfolding vector_poll
  poll_lem masked fired start end m here =
      let bound = if ltb end m.dev.vectors then end else m.dev.vectors in
      Returns-map {Q = λ m'. m'.dev ≡ m.dev} _ (λ m' k. k.device)
        (poll_vectors-IsPolled masked fired (bound - start) start m
          (λ v low high. here v (ground arith)))

  -- The result says whether the notifiers are there, and the call has been made.
  pub record IsCalled (q : Reply) : Type 0 where
    pub vs : ℕ → MsiVector
    pub there : q.machine.dev.msi_vectors ≡ some vs
    pub routed : (i : ℕ) → (vs i).has_pdev ≡ ltb i n
    pub answered : answer q.machine.effects ≡ some (not q.failed)
    pub same : SamePeers d q.machine.dev

  pub set_vector_notifiers-IsCalled :
      (fresh held : ℕ → Bool) (notifying : Notifying) (m : Machine)
      → ((v : ℕ) → v < d.vectors → has_eventfd d d.vm_id v ≡ true)
      → IsOrderly d.vectors fresh held notifying
      → IsReady fresh held n d m
      → Returns (set_vector_notifiers notifying m) IsCalled
  unfolding set_vector_notifiers
  set_vector_notifiers-IsCalled fresh held (returns accepted) m here orderly ready = record {
    vs = ready.vs;
    there = ready.there;
    routed = ready.routed;
    answered = ground arith;
    same = ready.same;
  }
  set_vector_notifiers-IsCalled fresh held (unmasks kvm v msg next) m here orderly ready =
      Returns-bind
        (λ r.
          IsReady (update fresh v false) (if r.failed then held else update held v true) n d
            r.machine)
        IsCalled (vector_unmask kvm v msg m) (λ r. set_vector_notifiers (next r.failed) r.machine)
        (unmask-IsReady fresh held kvm v msg m (here v orderly.0) orderly.1 ready)
        (λ r later.
          go r r.failed later
            (set_vector_notifiers-IsCalled (update fresh v false) held (next true) r.machine here
              orderly.2)
            (set_vector_notifiers-IsCalled (update fresh v false) (update held v true) (next false)
              r.machine here orderly.3))
    where
      go :
          (r : Reply) (b : Bool)
          → IsReady (update fresh v false) (if b then held else update held v true) n d r.machine
          → (IsReady (update fresh v false) held n d r.machine
              → Returns (set_vector_notifiers (next true) r.machine) IsCalled)
          → (IsReady (update fresh v false) (update held v true) n d r.machine
              → Returns (set_vector_notifiers (next false) r.machine) IsCalled)
          → Returns (set_vector_notifiers (next b) r.machine) IsCalled
      go r true later refusal success = refusal later
      go r false later refusal success = success later
  set_vector_notifiers-IsCalled fresh held (masks remove_ok v next) m here orderly ready =
      Returns-bind (IsReady fresh (update held v false) n d) IsCalled (vector_mask remove_ok v m)
        (set_vector_notifiers next)
        (mask-IsReady fresh held remove_ok v m (here v orderly.0) orderly.1 ready)
        (λ m' later.
          set_vector_notifiers-IsCalled fresh (update held v false) next m' here orderly.2 later)
  set_vector_notifiers-IsCalled fresh held (polls masked fired start end next) m here orderly
        ready =
      Returns-bind (λ m'. m'.dev ≡ m.dev) IsCalled (vector_poll masked fired start end m)
        (set_vector_notifiers next)
        (poll_lem masked fired start end m (λ v lt.
          has_eventfd-SamePeers d m.dev v ready.same (here v (subst (λ w. v < w) ready.same.3 lt))))
        (λ m' e. set_vector_notifiers-IsCalled fresh held next m' here orderly (record {
          vs = ready.vs;
          there = ap (λ k. k.msi_vectors) e ∙ ready.there;
          routed = ready.routed;
          masked = ready.masked;
          unmasked = ready.unmasked;
          same = subst (SamePeers d) (sym e) ready.same;
        }))
