-- ===== src/Lifecycle/Exit.antt =====
-- The end of a device: what `ivshmem_exit` closes, and when it frees an array twice.
-- About qemu_src/hw/misc/idt_ntb_ivshmem.c, lines 1130 to 1151, 1259 to 1268 and 1765 to 1808.
use ntb_cxl.Prelude.{
  ℕ, ◌+◌, ◌<◌, ◌≡◌, ◌≢◌, refl, sym, subst, arith, Bool, true, false, none, List, [], ◌∷◌, ◌==◌,
}
use ntb_cxl.Device.{
  Outcome, ok, abort, fault, ◌>>=◌, IvShmemState, Returns, Returns-bind, Machine, Effect,
  free_peers,
}
use ntb_cxl.Server.{process_msg_disconnect}
use ntb_cxl.Lifecycle.{ExitCalls, release_memory, release_peers, close_peers, finish, exit}
use ntb_cxl.Lifecycle.Close.{
  is_cleaned, IsClosed, closed, close_lem, closed-IsClosed, close_peers-IsClosed, close_peers-fault,
}

-- The table of peers has been freed.
abbrev pub is_freed : List Effect → Bool
is_freed [] = false
is_freed (free_peers ∷ effects) = true
is_freed (_ ∷ effects) = is_freed effects

released_memory :
    (calls : ExitCalls) (m : Machine)
    → m.dev.has_bar2 ≡ true
    → Returns (release_memory calls m) (λ n. n.dev ≡ m.dev)
unfolding release_memory
released_memory calls m bar2 = ground arith

-- Every descriptor of every peer is closed, every peer's array freed, and the table of peers and the
-- array of vectors too.
pub record IsEnded (m m' : Machine) : Type 0 where
  pub arrays : (j : ℕ) → j < m.dev.nb_peers → (m'.dev.peers j).eventfds ≡ none
  pub descriptors :
      (j v : ℕ)
      → j < m.dev.nb_peers
      → v < (m.dev.peers j).nb_eventfds
      → is_cleaned j v m'.effects ≡ true
  pub table : is_freed m'.effects ≡ true
  pub vectors : m'.dev.msi_vectors ≡ none

-- The same before the vectors.
abbrev IsReleased : IvShmemState → Machine → Type 0
IsReleased d m' =
    ((j : ℕ) → j < d.nb_peers → (m'.dev.peers j).eventfds ≡ none)
    × ((j v : ℕ) → j < d.nb_peers → v < (d.peers j).nb_eventfds → is_cleaned j v m'.effects ≡ true)
    × (is_freed m'.effects ≡ true)

release_peers-IsReleased :
    (n : Machine)
    → 0 < n.dev.nb_peers
    → ((j : ℕ) → j < n.dev.nb_peers → (n.dev.peers j).eventfds ≢ none)
    → Returns (release_peers n) (IsReleased n.dev)
unfolding release_peers
release_peers-IsReleased n some_peer there =
    let table : (n.dev.nb_peers == 0) ≡ false = ground arith in
    rw table (
      Returns-bind (IsClosed 0 (0 + n.dev.nb_peers) n) (IsReleased n.dev)
        (close_peers n.dev.nb_peers 0 n) _
        (close_peers-IsClosed n.dev.nb_peers 0 n (omega arith)
          (λ j low high. there j (omega arith)))
        (λ m' k. (
          λ j lt. k.freed j (omega arith) (omega arith),
          λ j v lt few. k.cleaned j v (omega arith) (omega arith) few,
          refl,
        )))

-- `ivshmem_exit` of a device that has come up, where no peer has disconnected, returns: it closes
-- every descriptor of every peer and frees each peer's array, the table of peers and the array of
-- vectors. A device that has come up has its shared memory and places in its table.
pub exit-IsEnded :
    (calls : ExitCalls) (m : Machine)
    → m.dev.has_bar2 ≡ true
    → 0 < m.dev.nb_peers
    → ((j : ℕ) → j < m.dev.nb_peers → (m.dev.peers j).eventfds ≢ none)
    → Returns (exit calls m) (IsEnded m)
unfolding exit finish
exit-IsEnded calls m bar2 some_peer there =
    Returns-bind (IsReleased m.dev) (IsEnded m) (release_memory calls m >>= release_peers) finish
      (Returns-bind (λ n. n.dev ≡ m.dev) (IsReleased m.dev) (release_memory calls m) release_peers
        (released_memory calls m bar2)
        (λ n same.
          subst (λ d. Returns (release_peers n) (IsReleased d)) same
            (release_peers-IsReleased n (subst (λ d. 0 < d.nb_peers) (sym same) some_peer) (
              subst (λ d. (j : ℕ) → j < d.nb_peers → (d.peers j).eventfds ≢ none) (sym same)
                there))))
      (λ m' k. record {
        arrays = λ j lt. ground (arith, k.0 j lt);
        descriptors = λ j v lt few. ground (arith, k.1 j v lt few);
        table = ground (arith, k.2);
        vectors = refl;
      })

-- No part of the device changes before the loop over the peers.
abbrev IsBefore : IvShmemState → Outcome Machine → Type 0
IsBefore d (ok n) = n.dev ≡ d
IsBefore d abort = ⊥
IsBefore d fault = Unit

release_memory-IsBefore :
    (calls : ExitCalls) (m : Machine) → IsBefore m.dev (release_memory calls m)
unfolding release_memory
release_memory-IsBefore calls m = ground arith

release_peers-fault :
    (posn : ℕ) (n : Machine)
    → posn < n.dev.nb_peers
    → (n.dev.peers posn).eventfds ≡ none
    → release_peers n ≡ fault
unfolding release_peers
release_peers-fault posn n known gone = ground (
  arith,
  close_peers-fault n.dev.nb_peers 0 posn n (omega arith) (omega arith) (omega arith) gone,
)

exit-fault :
    (calls : ExitCalls) (posn : ℕ) (m : Machine)
    → posn < m.dev.nb_peers
    → (m.dev.peers posn).eventfds ≡ none
    → exit calls m ≡ fault
unfolding exit
exit-fault calls posn m known gone = go (release_memory calls m) (release_memory-IsBefore calls m)
  where
    go : (o : Outcome Machine) → IsBefore m.dev o → (o >>= release_peers >>= finish) ≡ fault
    go abort before = absurd before
    go fault before = refl
    go (ok n) before =
        rw
          (release_peers-fault posn n (subst (λ d. posn < d.nb_peers) (sym before) known)
            (subst (λ d. (d.peers posn).eventfds ≡ none) (sym before) gone))
          refl

disconnect_lem :
    (posn : ℕ) (m : Machine)
    → posn < m.dev.nb_peers
    → posn ≢ m.dev.vm_id
    → (m.dev.peers posn).eventfds ≢ none
    → process_msg_disconnect posn m ≡ ok (record { failed = false; machine = closed posn m })
unfolding process_msg_disconnect
disconnect_lem posn m known other there = ground (arith, close_lem posn m known there)

-- A device whose peer has gone cannot end: the disconnect message frees the peer's array, and
-- `ivshmem_exit` frees it again. The peer is not the device itself and was connected.
pub exit-disconnect :
    (calls : ExitCalls) (posn : ℕ) (m : Machine)
    → posn < m.dev.nb_peers
    → posn ≢ m.dev.vm_id
    → (m.dev.peers posn).eventfds ≢ none
    → Returns (process_msg_disconnect posn m) (λ r. exit calls r.machine ≡ fault)
exit-disconnect calls posn m known other there =
    let k = closed-IsClosed posn m in
    rw (disconnect_lem posn m known other there) (
      exit-fault calls posn (closed posn m) (omega (arith, k.count, known))
        (k.freed posn (omega arith) (omega arith)))
