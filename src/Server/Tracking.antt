-- ===== src/Server/Tracking.antt =====
-- The table of peers through the server's messages.
-- About qemu_src/hw/misc/idt_ntb_ivshmem.c, lines 1130 to 1168 and 1259 to 1326.
use ntb_cxl.Prelude.{
  ℕ, zero, suc, ◌+◌, ◌≤◌, ◌<◌, ◌≡◌, ◌≢◌, refl, arith, false, ◌&&◌, ◌==◌, ltb, leb, if◌then◌else◌,
  none, some, ◌∷◌, update,
}
use ntb_cxl.Prelude.Int.{pos}
use ntb_cxl.Device.{fault, ◌>>=◌, Returns, Peer, Machine, emit, event_init, event_cleanup}
use ntb_cxl.Server.Peers.{fresh_peer, init_peers, close_peer_eventfds, cleanup_eventfds}
use ntb_cxl.Server.Process.{
  Host, Reply, process_msg, process_peer_msg, process_msg_connect, process_msg_disconnect,
  setup_interrupt, ivshmem_max_peers,
}

-- The loop of `resize_peers` makes exactly the new entries fresh.
pub init_peers_lem :
    (left start : ℕ) (peers : ℕ → Peer) (i : ℕ)
    → init_peers left start peers i
      ≡ (if leb start i && ltb i (start + left) then fresh_peer else peers i)
unfolding init_peers
init_peers_lem zero start peers i = ground arith
init_peers_lem (suc left) start peers i =
    ground (arith, init_peers_lem left (start + 1) (update peers start fresh_peer) i)

-- The N-th connect message of a peer fills vector N - 1 with its descriptor and counts it; all other
-- peers stay as they were.
pub record IsConnectedTo (posn fd : ℕ) (fds : ℕ → ℕ) (m : Machine) (r : Reply) : Type 0 where
  pub good : r.failed ≡ false
  pub count : (r.machine.dev.peers posn).nb_eventfds ≡ (m.dev.peers posn).nb_eventfds + 1
  pub filled :
      (r.machine.dev.peers posn).eventfds ≡ some (update fds (m.dev.peers posn).nb_eventfds fd)
  pub others :
      (i : ℕ)
      → (r.machine.dev.peers i) ≡ (if posn == i then r.machine.dev.peers posn else m.dev.peers i)
  pub event : r.machine.effects ≡ event_init posn (m.dev.peers posn).nb_eventfds ∷ m.effects

-- A connect message for a known peer that still misses a vector, and is not the device itself, is
-- recorded for the next vector of that peer and of no other.
pub process_msg-IsConnectedTo :
    (host : Host) (posn fd : ℕ) (fds : ℕ → ℕ) (m : Machine)
    → posn ≤ ivshmem_max_peers
    → posn < m.dev.nb_peers
    → posn ≢ m.dev.vm_id
    → (m.dev.peers posn).eventfds ≡ some fds
    → (m.dev.peers posn).nb_eventfds < m.dev.vectors
    → Returns (process_msg host (pos posn) (some fd) m) (IsConnectedTo posn fd fds m)
unfolding process_msg process_peer_msg process_msg_connect
process_msg-IsConnectedTo host posn fd fds m small known other there room = ground arith

pub cleanup-dev : (posn left i : ℕ) (m : Machine) → (cleanup_eventfds posn left i m).dev ≡ m.dev
unfolding cleanup_eventfds
cleanup-dev posn zero i m = refl
cleanup-dev posn (suc left) i m = cleanup-dev posn left (i + 1) (emit (event_cleanup posn i) m)

-- A peer that leaves and comes back: `close_peer_eventfds` frees the array and nothing allocates it
-- again, so the connect message that follows a disconnect message writes into freed memory.
pub process_msg-reconnect :
    (host : Host) (posn fd : ℕ) (fds : ℕ → ℕ) (m : Machine)
    → posn ≤ ivshmem_max_peers
    → posn < m.dev.nb_peers
    → posn ≢ m.dev.vm_id
    → (m.dev.peers posn).eventfds ≡ some fds
    → 0 < m.dev.vectors
    → (process_msg host (pos posn) none m >>= λ r. process_msg host (pos posn) (some fd) r.machine)
      ≡ fault
unfolding process_msg process_peer_msg process_msg_connect process_msg_disconnect
    close_peer_eventfds
process_msg-reconnect host posn fd fds m small known other there room =
    ground (arith, cleanup-dev posn (m.dev.peers posn).nb_eventfds 0 m)

-- A connect message for the device itself before `ivshmem_setup_interrupts` has allocated
-- `msi_vectors`, with interrupts by event descriptor, dereferences the null pointer.
pub process_msg-early :
    (host : Host) (fd : ℕ) (fds : ℕ → ℕ) (m : Machine)
    → host.irqfd_enabled ≡ false
    → m.dev.vm_id ≤ ivshmem_max_peers
    → m.dev.vm_id < m.dev.nb_peers
    → (m.dev.peers m.dev.vm_id).eventfds ≡ some fds
    → (m.dev.peers m.dev.vm_id).nb_eventfds < m.dev.vectors
    → m.dev.msi_vectors ≡ none
    → process_msg host (pos m.dev.vm_id) (some fd) m ≡ fault
unfolding process_msg process_peer_msg process_msg_connect setup_interrupt
process_msg-early host fd fds m off small known there room unset = ground arith
