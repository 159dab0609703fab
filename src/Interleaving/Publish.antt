-- ===== src/Interleaving/Publish.antt =====
-- A message becomes visible before its status bit, and its interrupt comes last.
-- About qemu_src/hw/misc/idt_ntb_ivshmem.c, lines 421 to 463 and 598 to 727.
use ntb_cxl.Prelude.{ℕ, ◌+◌, ◌<◌, ◌≡◌, ◌≢◌, refl, arith, List, []}
use ntb_cxl.Prelude.Bits.{bit}
use ntb_cxl.Device.{ShmStorage, IvShmemState, Side, at_vm1, at_vm2, opposite, wiring_of}
use ntb_cxl.Interleaving.{status, partition, message, source, load, send_program, Handler}
use ntb_cxl.Interleaving.Race.{Turn, Race, interleave, guest_program}
use ntb_cxl.Interleaving.Receiver.{guest-IsFree, guest-IsKept}
use ntb_cxl.Interleaving.Stage.{Stage, before, found, early, late, IsOngoing, interleave-IsOngoing}

-- A status bit that is set says that the message is there, and an event that has been raised says
-- that its source is there too.
pub record IsPublished (p : Side) (i val part : ℕ) (r : Race) : Type 0 where
  pub visible :
      bit (load (status (opposite p)) r.shm) (16 + i) ≡ 1
      → load (message (opposite p) i) r.shm ≡ val
  pub told :
      r.raised1 ≢ []
      → (load (message (opposite p) i) r.shm ≡ val) × (load (source (opposite p) i) r.shm ≡ part)

Stage-IsPublished :
    (p : Side) (i val part : ℕ) (d : IvShmemState) (r : Race)
    → Stage p i val part d r
    → IsPublished p i val part r
Stage-IsPublished p i val part d r (before e free quiet none) = record {
  visible = λ set. absurd (omega (arith, set, free));
  told = λ some_event. absurd (some_event none);
}
Stage-IsPublished p i val part d r (found e free quiet none) = record {
  visible = λ set. absurd (omega (arith, set, free));
  told = λ some_event. absurd (some_event none);
}
Stage-IsPublished p i val part d r (early is has none) = record {
  visible = λ set. has;
  told = λ some_event. absurd (some_event none);
}
Stage-IsPublished p i val part d r (late respects has from) = record {
  visible = λ set. has;
  told = λ some_event. (has, from);
}

-- Machine `p` sends, and the other machine's guest does what it likes.
abbrev pub sending : Side → ℕ → ℕ → IvShmemState → IvShmemState → List Handler → ShmStorage → Race
sending p i val d e handlers sh = record {
  first = send_program (wiring_of p) d i val;
  second = guest_program handlers (wiring_of (opposite p)) e;
  shm = sh;
  raised1 = [];
  raised2 = [];
}

-- A message is published in order, however the accesses of the two processes fall: machine `p`
-- writes `val` to OUTMSGi while the peer's place i is free, and meanwhile the peer's guest makes any
-- writes of `Handler`, each cut into its accesses. After any number of accesses, a status bit that
-- is set means that the message register holds `val`, and an event that the sender has raised means
-- that the source register holds the sender's partition too.
pub send-IsPublished :
    (p : Side) (i val : ℕ) (d e : IvShmemState) (handlers : List Handler) (sh : ShmStorage)
    (schedule : List Turn)
    → i < 4
    → bit (load (status (opposite p)) sh) (16 + i) ≡ 0
    → IsPublished p i val
        (load (partition p) sh)
        (interleave schedule (sending p i val d e handlers sh))
send-IsPublished p i val d e handlers sh schedule lt free =
    let part = load (partition p) sh in
    let start : IsOngoing p i val part d (sending p i val d e handlers sh) = record {
      kept = guest-IsKept (opposite p) i handlers e;
      sender = own p;
      stage = before refl free (guest-IsFree (opposite p) i handlers e) refl;
    } in
    Stage-IsPublished p i val part d (interleave schedule (sending p i val d e handlers sh))
      (interleave-IsOngoing p i val part d schedule (sending p i val d e handlers sh) lt
        start).stage
  where
    own : (p : Side) → load (partition (opposite (opposite p))) sh ≡ load (partition p) sh
    own at_vm1 = refl
    own at_vm2 = refl
