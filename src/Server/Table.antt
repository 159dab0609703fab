-- ===== src/Server/Table.antt =====
-- The table of peers keeps its bounds through every message.
-- About qemu_src/hw/misc/idt_ntb_ivshmem.c, lines 1130 to 1168 and 1227 to 1326.
use ntb_cxl.Prelude.{
  ℕ, ◌+◌, ◌-◌, ◌≤◌, ◌<◌, ◌≡◌, sym, subst, arith, Bool-cases, inl, inr, ◌⊎◌, Option, none, some, ltb,
  leb, ◌==◌, if◌then◌else◌, update,
}
use ntb_cxl.Device.{
  Outcome, ok, fault, ◌>>=◌, WhenOk, WhenOk-bind, WhenOk-map, Peer, Machine, IvShmemState,
}
use ntb_cxl.Server.Peers.{init_peers, resize_peers, close_peer_eventfds, set_peers}
use ntb_cxl.Server.Process.{
  Host, Reply, process_msg_connect, process_msg_disconnect, setup_interrupt, route_interrupt,
  ivshmem_max_peers, add_eventfd, success,
}
use ntb_cxl.Interrupt.{init_vm_ids}
use ntb_cxl.Server.Tracking.{init_peers_lem, cleanup-dev}

-- A peer has at most the device's number of vectors, and none once its array is freed.
abbrev pub IsPeer : ℕ → Peer → Type 0
IsPeer vectors peer = (peer.nb_eventfds ≤ vectors) × (peer.eventfds ≡ none → peer.nb_eventfds ≡ 0)

-- The table has no more entries than there are positions, and each is in order.
pub record IsTable (d : IvShmemState) : Type 0 where
  pub entries : d.nb_peers ≤ ivshmem_max_peers + 1
  pub peer : (i : ℕ) → i < d.nb_peers → IsPeer d.vectors (d.peers i)

-- The table of `d'` is that of `d`.
abbrev pub SameTable : IvShmemState → IvShmemState → Type 0
SameTable d d' = (d'.peers ≡ d.peers) × (d'.nb_peers ≡ d.nb_peers) × (d'.vectors ≡ d.vectors)

pub same-IsTable : (d d' : IvShmemState) → IsTable d → SameTable d d' → IsTable d'
same-IsTable d d' h (same, count, vectors) = record {
  entries = rw count h.entries;
  peer = λ i lt. rw (same, vectors) (h.peer i (rw count at lt));
}

route-SameTable :
    (host : Host) (vector : ℕ) (m : Machine)
    → WhenOk (route_interrupt host vector m) (λ r. SameTable m.dev r.machine.dev)
unfolding route_interrupt
route-SameTable host vector m = ground arith

ids-SameTable : (m : Machine) → WhenOk (init_vm_ids m) (λ m'. SameTable m.dev m'.dev)
unfolding init_vm_ids
ids-SameTable m = ground arith

setup-SameTable :
    (host : Host) (vector : ℕ) (m : Machine)
    → WhenOk (setup_interrupt host vector m) (λ r. SameTable m.dev r.machine.dev)
unfolding setup_interrupt
setup-SameTable host vector m =
    WhenOk-bind (λ r. SameTable m.dev r.machine.dev) (λ r. SameTable m.dev r.machine.dev)
      (route_interrupt host vector m) _ (route-SameTable host vector m)
      (λ r same. rest r same (init_vm_ids r.machine) (ids-SameTable r.machine))
  where
    rest :
        (r : Reply) (same : SameTable m.dev r.machine.dev) (o : Outcome Machine)
        → WhenOk o (λ m'. SameTable r.machine.dev m'.dev)
        → WhenOk
            (if r.failed then ok r else if vector == 1 then o >>= success else ok r)
            (λ r. SameTable m.dev r.machine.dev)
    rest r same o next = ground arith

grown-IsTable :
    (posn : ℕ) (m : Machine)
    → m.dev.nb_peers < posn + 1
    → posn ≤ ivshmem_max_peers
    → IsTable m.dev
    → IsTable
        (set_peers m
          (init_peers (posn + 1 - m.dev.nb_peers) m.dev.nb_peers m.dev.peers)
          (posn + 1)).dev
grown-IsTable posn m more small h = record { entries = omega arith; peer = peer }
  where
    known : (i : ℕ) → i < posn + 1 → (m.dev.nb_peers ≤ i) ⊎ IsPeer m.dev.vectors (m.dev.peers i)
    known i lt = elim (Bool-cases (leb m.dev.nb_peers i)) [
      | inl new ↦ inl (ground arith)
      | inr old ↦ inr (h.peer i (ground arith))
    ]

    peer :
        (i : ℕ)
        → i < posn + 1
        → IsPeer m.dev.vectors (init_peers (posn + 1 - m.dev.nb_peers) m.dev.nb_peers m.dev.peers i)
    peer i lt =
        let cases = known i lt in
        ground
          (arith, cases, init_peers_lem (posn + 1 - m.dev.nb_peers) m.dev.nb_peers m.dev.peers i)

pub resize-IsTable :
    (posn : ℕ) (m : Machine)
    → posn ≤ ivshmem_max_peers
    → IsTable m.dev
    → WhenOk (resize_peers (posn + 1) m) (λ m'. IsTable m'.dev)
unfolding resize_peers
resize-IsTable posn m small h = elim (Bool-cases (ltb m.dev.nb_peers (posn + 1))) [
  | inl more ↦ rw more (grown-IsTable posn m (ground arith) small h)
  | inr enough ↦ rw enough tt
]

add-IsTable :
    (posn fd : ℕ) (m : Machine) (fds : ℕ → ℕ)
    → (m.dev.peers posn).nb_eventfds < m.dev.vectors
    → IsTable m.dev
    → IsTable (add_eventfd posn fd m fds).dev
add-IsTable posn fd m fds room h = record {
  entries = h.entries;
  peer = λ i lt. let old = h.peer i lt in ground (arith, old);
}

-- What `close_peer_eventfds` leaves of device `d`.
abbrev closed : ℕ → IvShmemState → IvShmemState
closed posn d = record d {
  peers = update d.peers posn (record { nb_eventfds = 0; eventfds = none });
  nb_peers = d.nb_peers;
}

closed-IsTable : (posn : ℕ) (d : IvShmemState) → IsTable d → IsTable (closed posn d)
closed-IsTable posn d h = record {
  entries = h.entries;
  peer = λ i lt. let old = h.peer i lt in ground (arith, old);
}

pub disconnect-IsTable :
    (posn : ℕ) (m : Machine)
    → IsTable m.dev
    → WhenOk (process_msg_disconnect posn m) (λ r. IsTable r.machine.dev)
unfolding process_msg_disconnect close_peer_eventfds
disconnect-IsTable posn m h =
    let same = cleanup-dev posn (m.dev.peers posn).nb_eventfds 0 m in
    let freed = subst (λ d. IsTable (closed posn d)) (sym same) (closed-IsTable posn m.dev h) in
    ground (arith, freed)

setup-IsTable :
    (host : Host) (vector : ℕ) (m : Machine)
    → IsTable m.dev
    → WhenOk (setup_interrupt host vector m) (λ r. IsTable r.machine.dev)
setup-IsTable host vector m h =
    WhenOk-map (λ r. SameTable m.dev r.machine.dev) (λ r. IsTable r.machine.dev)
      (setup_interrupt host vector m) (λ r same. same-IsTable m.dev r.machine.dev h same)
      (setup-SameTable host vector m)

pub connect-IsTable :
    (host : Host) (posn fd : ℕ) (m : Machine)
    → IsTable m.dev
    → WhenOk (process_msg_connect host posn fd m) (λ r. IsTable r.machine.dev)
unfolding process_msg_connect
connect-IsTable host posn fd m h =
    elim (Bool-cases (leb m.dev.vectors (m.dev.peers posn).nb_eventfds)) [
      | inl full ↦ rw full h
      | inr room ↦ rw room (go (ground arith) (m.dev.peers posn).eventfds)
    ]
  where
    go :
        (m.dev.peers posn).nb_eventfds < m.dev.vectors
        → (o : Option (ℕ → ℕ))
        → WhenOk
            (elim o [
              | none ↦ fault
              | some fds ↦
                  if posn == m.dev.vm_id
                  then setup_interrupt host
                      (m.dev.peers posn).nb_eventfds
                      (add_eventfd posn fd m fds)
                  else success (add_eventfd posn fd m fds)
            ])
            (λ r. IsTable r.machine.dev)
    go room none = tt
    go room (some fds) =
        let added = add-IsTable posn fd m fds room h in
        let ready =
          setup-IsTable host (m.dev.peers posn).nb_eventfds (add_eventfd posn fd m fds) added in
        ground (arith, added, ready)
