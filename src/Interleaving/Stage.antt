-- ===== src/Interleaving/Stage.antt =====
-- How far the sender of a message has come, and that each access keeps to it.
-- About qemu_src/hw/misc/idt_ntb_ivshmem.c, lines 421 to 463.
use ntb_cxl.Prelude.{ℕ, ◌<◌, ◌≡◌, ◌⊎◌, inl, inr, refl, sym, ap, ◌∙◌, subst, List, [], ◌∷◌}
use ntb_cxl.Device.{ShmStorage, IvShmemState, Side, opposite, wiring_of}
use ntb_cxl.Interleaving.{
  message, save, Program, done, stopped, faulted, fetch, put, raise, deliver_program, send_program,
}
use ntb_cxl.Interleaving.Race.{
  Turn, one, two, Race, memory_after, rest_after, effects_after, step, interleave, Respects,
  rest-Respects, memory-Respects,
}
use ntb_cxl.Interleaving.Receiver.{IsFree, IsKept, Always}
use ntb_cxl.Interleaving.Sender.{
  HasMessage, HasSource, HasPartition, IsEarly, found_next, found_still, message-HasMessage,
  source-HasSource, deliver-IsEarly,
}

-- Where the sender stands.
pub data Stage (p : Side) (i val part : ℕ) (d : IvShmemState) (r : Race) : Type 0 where
  before :
      r.first ≡ send_program (wiring_of p) d i val
      → IsFree (opposite p) i r.shm
      → Respects (IsFree (opposite p) i) (λ sh sh'. IsFree (opposite p) i sh') r.second
      → r.raised1 ≡ []
      → Stage p i val part d r
  found :
      r.first ≡ put (message (opposite p) i) val (deliver_program (wiring_of p) d i)
      → IsFree (opposite p) i r.shm
      → Respects (IsFree (opposite p) i) (λ sh sh'. IsFree (opposite p) i sh') r.second
      → r.raised1 ≡ []
      → Stage p i val part d r
  early :
      IsEarly (opposite p) i part r.first
      → HasMessage (opposite p) i val r.shm
      → r.raised1 ≡ []
      → Stage p i val part d r
  late :
      Respects Always (IsKept (opposite p) i) r.first
      → HasMessage (opposite p) i val r.shm
      → HasSource (opposite p) i part r.shm
      → Stage p i val part d r

pub record IsOngoing (p : Side) (i val part : ℕ) (d : IvShmemState) (r : Race) : Type 0 where
  pub kept : Respects Always (IsKept (opposite p) i) r.second
  pub sender : HasPartition (opposite p) part r.shm
  pub stage : Stage p i val part d r

-- One access of the sender from an early stage, or a later one of it.
step-IsEarly :
    (p : Side) (i val part : ℕ) (g : Program) (sh : ShmStorage)
    → IsEarly (opposite p) i part g
    → HasPartition (opposite p) part sh
    → HasMessage (opposite p) i val sh
    → HasPartition (opposite p) part (memory_after g sh)
      × HasMessage (opposite p) i val (memory_after g sh)
      × (effects_after g [] ≡ [])
      × (IsEarly (opposite p) i part (rest_after g sh)
          ⊎ (Respects Always (IsKept (opposite p) i) (rest_after g sh)
              × HasSource (opposite p) i part (memory_after g sh)))
unfolding memory_after rest_after effects_after
step-IsEarly p i val part done sh h k m = (k, m, refl, inl tt)
step-IsEarly p i val part stopped sh h k m = (k, m, refl, inl tt)
step-IsEarly p i val part faulted sh h k m = (k, m, refl, inl tt)
step-IsEarly p i val part (fetch a next) sh h k m = (k, m, refl, inl (h sh k))
step-IsEarly p i val part (put a v next) sh (inl (neutral, later)) k m =
    let same = neutral sh in (same.2 ∙ k, same.0 ∙ m, refl, inl later)
step-IsEarly p i val part (put a v next) sh (inr (place, value, later)) k m =
    let s = source-HasSource (opposite p) i val part sh k m in
    rw (place, value) (s.2, s.0, refl, inr (later, s.1))
step-IsEarly p i val part (raise e next) sh h k m = absurd h

-- A turn of the sender.
one-IsOngoing :
    (p : Side) (i val part : ℕ) (d : IvShmemState) (r : Race)
    → i < 4
    → IsOngoing p i val part d r
    → Stage p i val part d r
    → IsOngoing p i val part d (step one r)
unfolding step
one-IsOngoing p i val part d r lt h (before e free quiet none) =
    let still = found_still p i val d r.shm r.raised1 lt in
    let same : memory_after r.first r.shm ≡ r.shm = ap (λ g. memory_after g r.shm) e ∙ still.0 in
    record {
      kept = h.kept;
      sender = subst (HasPartition (opposite p) part) (sym same) h.sender;
      stage =
          found (ap (λ g. rest_after g r.shm) e ∙ found_next p i val d r.shm lt free)
            (subst (IsFree (opposite p) i) (sym same) free) quiet
            (ap (λ g. effects_after g r.raised1) e ∙ still.1 ∙ none);
    }
one-IsOngoing p i val part d r lt h (found e free quiet none) =
    let arrived = message-HasMessage (opposite p) i val part r.shm h.sender in
    let same : memory_after r.first r.shm ≡ save (message (opposite p) i) val r.shm =
      ap (λ g. memory_after g r.shm) e in
    record {
      kept = h.kept;
      sender = subst (HasPartition (opposite p) part) (sym same) arrived.1;
      stage =
          early
            (subst (IsEarly (opposite p) i part) (sym (ap (λ g. rest_after g r.shm) e))
              (deliver-IsEarly p i part d))
            (subst (HasMessage (opposite p) i val) (sym same) arrived.0)
            (ap (λ g. effects_after g r.raised1) e ∙ none);
    }
one-IsOngoing p i val part d r lt h (early is has none) =
    let next = step-IsEarly p i val part r.first r.shm is h.sender has in
    record {
      kept = h.kept;
      sender = next.0;
      stage = elim next.3 [
        | inl is' ↦ early is' next.1 (ap (effects_after r.first) none ∙ next.2)
        | inr (respects, from) ↦ late respects next.1 from
      ];
    }
one-IsOngoing p i val part d r lt h (late respects has from) =
    let same =
      memory-Respects Always (IsKept (opposite p) i) r.first r.shm tt respects (refl, refl, refl) in
    record {
      kept = h.kept;
      sender = same.2 ∙ h.sender;
      stage =
          late (rest-Respects Always (IsKept (opposite p) i) r.first r.shm tt respects)
            (same.0 ∙ has) (same.1 ∙ from);
    }

quiet-IsFree :
    (p : Side) (i : ℕ) (g : Program) (sh : ShmStorage)
    → IsFree (opposite p) i sh
    → Respects (IsFree (opposite p) i) (λ sh sh'. IsFree (opposite p) i sh') g
    → IsFree (opposite p) i (memory_after g sh)
      × Respects (IsFree (opposite p) i) (λ sh sh'. IsFree (opposite p) i sh') (rest_after g sh)
quiet-IsFree p i g sh free quiet = (
  memory-Respects (IsFree (opposite p) i) (λ sh sh'. IsFree (opposite p) i sh') g sh free quiet
      free,
  rest-Respects (IsFree (opposite p) i) (λ sh sh'. IsFree (opposite p) i sh') g sh free quiet,
)

-- A turn of the receiver.
two-Stage :
    (p : Side) (i val part : ℕ) (d : IvShmemState) (r : Race)
    → IsKept (opposite p) i r.shm (memory_after r.second r.shm)
    → Stage p i val part d r
    → Stage p i val part d (step two r)
unfolding step
two-Stage p i val part d r same (before e free quiet none) =
    let stays = quiet-IsFree p i r.second r.shm free quiet in before e stays.0 stays.1 none
two-Stage p i val part d r same (found e free quiet none) =
    let stays = quiet-IsFree p i r.second r.shm free quiet in found e stays.0 stays.1 none
two-Stage p i val part d r same (early is has none) = early is (same.0 ∙ has) none
two-Stage p i val part d r same (late respects has from) =
    late respects (same.0 ∙ has) (same.1 ∙ from)

two-IsOngoing :
    (p : Side) (i val part : ℕ) (d : IvShmemState) (r : Race)
    → IsOngoing p i val part d r
    → IsOngoing p i val part d (step two r)
unfolding step
two-IsOngoing p i val part d r h =
    let same =
      memory-Respects Always (IsKept (opposite p) i) r.second r.shm tt h.kept (refl, refl, refl) in
    record {
      kept = rest-Respects Always (IsKept (opposite p) i) r.second r.shm tt h.kept;
      sender = same.2 ∙ h.sender;
      stage = two-Stage p i val part d r same h.stage;
    }

step-IsOngoing :
    (p : Side) (i val part : ℕ) (d : IvShmemState) (t : Turn) (r : Race)
    → i < 4
    → IsOngoing p i val part d r
    → IsOngoing p i val part d (step t r)
step-IsOngoing p i val part d one r lt h = one-IsOngoing p i val part d r lt h h.stage
step-IsOngoing p i val part d two r lt h = two-IsOngoing p i val part d r h

pub interleave-IsOngoing :
    (p : Side) (i val part : ℕ) (d : IvShmemState) (schedule : List Turn) (r : Race)
    → i < 4
    → IsOngoing p i val part d r
    → IsOngoing p i val part d (interleave schedule r)
unfolding interleave
interleave-IsOngoing p i val part d [] r lt h = h
interleave-IsOngoing p i val part d (t ∷ schedule) r lt h =
    interleave-IsOngoing p i val part d schedule (step t r) lt
      (step-IsOngoing p i val part d t r lt h)
