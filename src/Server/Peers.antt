-- ===== src/Server/Peers.antt =====
-- The table of peers. About qemu_src/hw/misc/idt_ntb_ivshmem.c, lines 1130 to 1168.
use ntb_cxl.Prelude.{ℕ, zero, suc, ◌+◌, ◌-◌, none, some, ltb, if◌then◌else◌, update}
use ntb_cxl.Device.{Outcome, ok, abort, fault, Peer, Machine, emit, event_cleanup}

-- The entry that the loop of `resize_peers` writes: `g_new0` zeroes the descriptors.
abbrev pub fresh_peer : Peer
fresh_peer = record { nb_eventfds = 0; eventfds = some (λ _. 0) }

-- The loop of `resize_peers` at `i`, with so many rounds left.
unfoldable pub init_peers : ℕ → ℕ → (ℕ → Peer) → ℕ → Peer
init_peers zero i peers = peers
init_peers (suc left) i peers = init_peers left (i + 1) (update peers i fresh_peer)

abbrev pub set_peers : Machine → (ℕ → Peer) → ℕ → Machine
set_peers m peers nb = record m { dev = record (m.dev) { peers = peers; nb_peers = nb } }

-- `resize_peers`.
unfoldable pub resize_peers : ℕ → Machine → Outcome Machine
resize_peers nb m =
    if ltb m.dev.nb_peers nb
    then ok (set_peers m (init_peers (nb - m.dev.nb_peers) m.dev.nb_peers m.dev.peers) nb)
    else abort

-- The loop of `close_peer_eventfds` over `event_notifier_cleanup`.
unfoldable pub cleanup_eventfds : ℕ → ℕ → ℕ → Machine → Machine
cleanup_eventfds posn zero i m = m
cleanup_eventfds posn (suc left) i m =
    cleanup_eventfds posn left (i + 1) (emit (event_cleanup posn i) m)

-- `close_peer_eventfds`. With IOEVENTFD it also calls `ivshmem_del_eventfd`, whose body is empty.
-- The array is freed and the pointer kept: to free it again is undefined.
unfoldable pub close_peer_eventfds : ℕ → Machine → Outcome Machine
close_peer_eventfds posn m =
    if ltb posn m.dev.nb_peers
    then elim ((m.dev.peers posn).eventfds) [
      | none ↦ fault
      | some fds ↦
          let done = cleanup_eventfds posn (m.dev.peers posn).nb_eventfds 0 m in
          ok (
            set_peers done
              (update done.dev.peers posn (record { nb_eventfds = 0; eventfds = none }))
              done.dev.nb_peers)
    ]
    else abort
