-- ===== src/Lifecycle/Close.antt =====
-- The loop that closes the descriptors of the peers.
-- About qemu_src/hw/misc/idt_ntb_ivshmem.c, lines 1130 to 1151 and 1797 to 1800.
use ntb_cxl.Prelude.{
  ℕ, zero, suc, ◌+◌, ◌<◌, ◌≤◌, ◌≡◌, ◌≢◌, refl, sym, ap, ◌∙◌, subst, arith, Bool, true, false, ◌&&◌,
  ◌||◌, none, some, Option, List, [], ◌∷◌, ltb, leb, ◌==◌, inl, inr, update, ◌⊎◌,
}
use ntb_cxl.Device.{ok, fault, Returns, Returns-map, Machine, Peer, emit, Effect, event_cleanup}
use ntb_cxl.Server.{close_peer_eventfds, cleanup_eventfds, set_peers}
use ntb_cxl.Server.Tracking.{cleanup-dev}
use ntb_cxl.Lifecycle.{close_peers}

-- The descriptor of a peer for a vector has been closed.
abbrev pub is_cleaned : ℕ → ℕ → List Effect → Bool
is_cleaned posn v [] = false
is_cleaned posn v (event_cleanup p w ∷ effects) = (posn == p && v == w) || is_cleaned posn v effects
is_cleaned posn v (_ ∷ effects) = is_cleaned posn v effects

cleanup_eventfds_lem :
    (p left i : ℕ) (m : Machine) (posn v : ℕ)
    → is_cleaned posn v (cleanup_eventfds p left i m).effects
      ≡ ((posn == p && leb i v && ltb v (i + left)) || is_cleaned posn v m.effects)
unfolding cleanup_eventfds
cleanup_eventfds_lem p zero i m posn v = ground arith
cleanup_eventfds_lem p (suc left) i m posn v =
    ground (arith, cleanup_eventfds_lem p left (i + 1) (emit (event_cleanup p i) m) posn v)

-- Of the peers from `low` up to `high`, without it, every descriptor is closed and the array freed;
-- the others are as they were.
pub record IsClosed (low high : ℕ) (m m' : Machine) : Type 0 where
  pub count : m'.dev.nb_peers ≡ m.dev.nb_peers
  pub freed : (j : ℕ) → low ≤ j → j < high → (m'.dev.peers j).eventfds ≡ none
  pub others : (j : ℕ) → (leb low j && ltb j high) ≡ false → m'.dev.peers j ≡ m.dev.peers j
  pub cleaned :
      (j v : ℕ)
      → low ≤ j
      → j < high
      → v < (m.dev.peers j).nb_eventfds
      → is_cleaned j v m'.effects ≡ true
  pub kept : (j v : ℕ) → is_cleaned j v m.effects ≡ true → is_cleaned j v m'.effects ≡ true

unfoldable pub closed : ℕ → Machine → Machine
closed i m =
    let done = cleanup_eventfds i (m.dev.peers i).nb_eventfds 0 m in
    set_peers done (update done.dev.peers i (record { nb_eventfds = 0; eventfds = none }))
      done.dev.nb_peers

pub close_lem :
    (i : ℕ) (m : Machine)
    → i < m.dev.nb_peers
    → (m.dev.peers i).eventfds ≢ none
    → close_peer_eventfds i m ≡ ok (closed i m)
unfolding close_peer_eventfds closed
close_lem i m lt there = ground arith

pub closed-IsClosed : (i : ℕ) (m : Machine) → IsClosed i (i + 1) m (closed i m)
unfolding closed
closed-IsClosed i m = record {
  count = ap (λ d. d.nb_peers) same;
  freed = λ j low high. ground arith;
  others = λ j out. ground (arith, same);
  cleaned =
      λ j v low high lt. ground (arith, cleanup_eventfds_lem i (m.dev.peers i).nb_eventfds 0 m j v);
  kept = λ j v h. ground (arith, cleanup_eventfds_lem i (m.dev.peers i).nb_eventfds 0 m j v);
}
  where
    same : (cleanup_eventfds i (m.dev.peers i).nb_eventfds 0 m).dev ≡ m.dev
    same = cleanup-dev i (m.dev.peers i).nb_eventfds 0 m

join-IsClosed :
    (low mid high : ℕ) (m n m' : Machine)
    → low ≤ mid
    → mid ≤ high
    → IsClosed low mid m n
    → IsClosed mid high n m'
    → IsClosed low high m m'
join-IsClosed low mid high m n m' first second h k = record {
  count = k.count ∙ h.count;
  freed = λ j above below. ground (arith, h.freed j above, k.freed j, k.others j);
  others = λ j out. k.others j (ground arith) ∙ h.others j (ground arith);
  cleaned = λ j v above below lt.
      ground (arith, h.cleaned j v above, k.cleaned j v, k.kept j v, h.others j);
  kept = λ j v c. k.kept j v (h.kept j v c);
}

pub close_peers-IsClosed :
    (left i : ℕ) (m : Machine)
    → i + left ≤ m.dev.nb_peers
    → ((j : ℕ) → i ≤ j → j < i + left → (m.dev.peers j).eventfds ≢ none)
    → Returns (close_peers left i m) (IsClosed i (i + left) m)
unfolding close_peers
close_peers-IsClosed zero i m fits there = record {
  count = refl;
  freed = λ j low high. absurd (omega arith);
  others = λ j out. refl;
  cleaned = λ j v low high lt. absurd (omega arith);
  kept = λ j v c. c;
}
close_peers-IsClosed (suc left) i m fits there =
    let k = closed-IsClosed i m in
    rw (close_lem i m (omega arith) (there i (omega arith) (omega arith))) (
      Returns-map (close_peers left (i + 1) (closed i m))
        (λ (m' : Machine) k'.
          subst (λ high. IsClosed i high m m') (omega arith)
            (join-IsClosed i (i + 1) (i + 1 + left) m (closed i m) m' (omega arith) (omega arith) k
              k'))
        (close_peers-IsClosed left (i + 1) (closed i m) (omega (arith, k.count, fits))
          (λ j low high.
            subst (λ (q : Peer). q.eventfds ≢ none) (sym (k.others j (ground arith)))
              (there j (omega arith) (omega arith)))))

close-fault :
    (i : ℕ) (m : Machine)
    → i < m.dev.nb_peers
    → (m.dev.peers i).eventfds ≡ none
    → close_peer_eventfds i m ≡ fault
unfolding close_peer_eventfds
close-fault i m lt e = ground arith

freed_or : (o : Option (ℕ → ℕ)) → (o ≡ none) ⊎ (o ≢ none)
freed_or none = inl refl
freed_or (some fds) = inr (λ e. ground arith)

-- A machine whose array for some peer has been freed.
pub close_peers-fault :
    (left i posn : ℕ) (m : Machine)
    → i + left ≤ m.dev.nb_peers
    → i ≤ posn
    → posn < i + left
    → (m.dev.peers posn).eventfds ≡ none
    → close_peers left i m ≡ fault
unfolding close_peers
close_peers-fault zero i posn m fits low high gone = absurd (omega arith)
close_peers-fault (suc left) i posn m fits low high gone =
    elim (freed_or ((m.dev.peers i).eventfds)) [
      | inl e ↦ rw (close-fault i m (omega arith) e) refl
      | inr there ↦
          let k = closed-IsClosed i m in
          let other : posn ≢ i = λ same. ground arith in
          rw (close_lem i m (omega arith) there) (
            close_peers-fault left (i + 1) posn (closed i m) (omega (arith, k.count, fits))
              (omega arith) (omega arith)
              (ap (λ (q : Peer). q.eventfds) (k.others posn (ground arith)) ∙ gone))
    ]
