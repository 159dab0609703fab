-- ===== src/Server/Answer.antt =====
-- Messages of the server keep the table of peers in order, and are answered.
-- About qemu_src/hw/misc/idt_ntb_ivshmem.c, lines 1130 to 1168 and 1227 to 1326.
use ntb_cxl.Prelude.{
  ℕ, zero, suc, ◌+◌, ◌-◌, ◌≤◌, ◌<◌, ◌≢◌, refl, arith, Bool-cases, inl, inr, true, Option, none,
  some, ltb, leb, if◌then◌else◌,
}
use ntb_cxl.Prelude.Int.{ℤ, pos, negsuc}
use ntb_cxl.Device.{ok, WhenOk, WhenOk-bind, Returns, Returns-map, Returns-WhenOk, Machine}
use ntb_cxl.Server.Peers.{resize_peers, close_peer_eventfds}
use ntb_cxl.Server.Process.{
  Host, process_msg, process_peer_msg, process_msg_shmem, process_msg_connect,
  process_msg_disconnect, ivshmem_max_peers,
}
use ntb_cxl.Server.Tracking.{init_peers_lem}
use ntb_cxl.Server.Table.{
  IsTable, same-IsTable, resize-IsTable, disconnect-IsTable, connect-IsTable,
}

peer_msg-IsTable :
    (host : Host) (posn : ℕ) (fd : Option ℕ) (m : Machine)
    → posn ≤ ivshmem_max_peers
    → IsTable m.dev
    → WhenOk (process_peer_msg host posn fd m) (λ r. IsTable r.machine.dev)
unfolding process_peer_msg
peer_msg-IsTable host posn fd m small h =
    WhenOk-bind (λ m'. IsTable m'.dev) (λ r. IsTable r.machine.dev)
      (if leb m.dev.nb_peers posn then resize_peers (posn + 1) m else ok m) _ grown
      (λ m' k. answer fd m' k)
  where
    grown :
        WhenOk
          (if leb m.dev.nb_peers posn then resize_peers (posn + 1) m else ok m)
          (λ m'. IsTable m'.dev)
    grown = let more = resize-IsTable posn m small h in ground (arith, more)

    answer :
        (fd : Option ℕ) (m' : Machine)
        → IsTable m'.dev
        → WhenOk
            (elim fd [
              | some n ↦ process_msg_connect host posn n m'
              | none ↦ process_msg_disconnect posn m'
            ])
            (λ r. IsTable r.machine.dev)
    answer none m' k = disconnect-IsTable posn m' k
    answer (some n) m' k = connect-IsTable host posn n m' k

shmem-IsTable :
    (host : Host) (fd : Option ℕ) (m : Machine)
    → IsTable m.dev
    → WhenOk (process_msg_shmem host fd m) (λ r. IsTable r.machine.dev)
unfolding process_msg_shmem
shmem-IsTable host none m h =
    let same = same-IsTable m.dev (record (m.dev) { has_bar2 = true }) h (refl, refl, refl) in
    ground (arith, same)
shmem-IsTable host (some n) m h =
    let same = same-IsTable m.dev (record (m.dev) { has_bar2 = true }) h (refl, refl, refl) in
    ground (arith, same)

message-IsTable :
    (host : Host) (msg : ℤ) (fd : Option ℕ) (m : Machine)
    → IsTable m.dev
    → WhenOk (process_msg host msg fd m) (λ r. IsTable r.machine.dev)
unfolding process_msg
message-IsTable host (pos posn) none m h = elim (Bool-cases (ltb ivshmem_max_peers posn)) [
  | inl large ↦ rw large h
  | inr small ↦ rw small (peer_msg-IsTable host posn none m (ground arith) h)
]
message-IsTable host (pos posn) (some n) m h = elim (Bool-cases (ltb ivshmem_max_peers posn)) [
  | inl large ↦ rw large h
  | inr small ↦ rw small (peer_msg-IsTable host posn (some n) m (ground arith) h)
]
message-IsTable host (negsuc zero) fd m h = shmem-IsTable host fd m h
message-IsTable host (negsuc (suc n)) none m h = h
message-IsTable host (negsuc (suc n)) (some fd) m h = h

-- The message is not about the device itself, nor about a peer that has gone.
abbrev pub IsAnswerable : ℤ → Machine → Type 0
IsAnswerable (pos posn) m =
    (posn ≢ m.dev.vm_id) × (posn < m.dev.nb_peers → (m.dev.peers posn).eventfds ≢ none)
IsAnswerable (negsuc n) m = Unit

peer_msg-Returns :
    (host : Host) (posn : ℕ) (fd : Option ℕ) (m : Machine)
    → IsAnswerable (pos posn) m
    → Returns (process_peer_msg host posn fd m) (λ _. Unit)
unfolding process_peer_msg resize_peers process_msg_connect process_msg_disconnect
    close_peer_eventfds
peer_msg-Returns host posn none m (other, there) =
    ground
      (arith, there, init_peers_lem (posn + 1 - m.dev.nb_peers) m.dev.nb_peers m.dev.peers posn)
peer_msg-Returns host posn (some fd) m (other, there) =
    ground
      (arith, there, init_peers_lem (posn + 1 - m.dev.nb_peers) m.dev.nb_peers m.dev.peers posn)

message-Returns :
    (host : Host) (msg : ℤ) (fd : Option ℕ) (m : Machine)
    → IsAnswerable msg m
    → Returns (process_msg host msg fd m) (λ _. Unit)
unfolding process_msg process_msg_shmem
message-Returns host (pos posn) none m h =
    let known = peer_msg-Returns host posn none m h in ground (arith, known)
message-Returns host (pos posn) (some n) m h =
    let known = peer_msg-Returns host posn (some n) m h in ground (arith, known)
message-Returns host (negsuc zero) none m h = ground arith
message-Returns host (negsuc zero) (some n) m h = ground arith
message-Returns host (negsuc (suc n)) none m h = tt
message-Returns host (negsuc (suc n)) (some fd) m h = tt

-- Every message of the server, valid or not, that is not about the device itself nor about a peer
-- that has gone is answered, and keeps the table in order: at most 65536 entries, at most `vectors`
-- descriptors for each peer, so that none lies outside its array, and none for a freed one.
pub process_msg-IsTable :
    (host : Host) (msg : ℤ) (fd : Option ℕ) (m : Machine)
    → IsAnswerable msg m
    → IsTable m.dev
    → Returns (process_msg host msg fd m) (λ r. IsTable r.machine.dev)
process_msg-IsTable host msg fd m answerable h =
    Returns-map (process_msg host msg fd m) (λ r both. both.1)
      (Returns-WhenOk (λ _. Unit) (λ r. IsTable r.machine.dev) (process_msg host msg fd m)
        (message-Returns host msg fd m answerable) (message-IsTable host msg fd m h))
