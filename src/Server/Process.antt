-- ===== src/Server/Process.antt =====
-- The messages of the server, one at a time. About qemu_src/hw/misc/idt_ntb_ivshmem.c, lines 1094
-- to 1104 and 1170 to 1326.
use ntb_cxl.Prelude.{
  ℕ, ◌+◌, Bool, true, false, ◌&&◌, ◌||◌, not, Option, none, some, ltb, leb, ◌==◌, if◌then◌else◌,
  is_nonzero, bit_and, update,
}
use ntb_cxl.Prelude.Int.{ℤ, pos, negsuc}
use ntb_cxl.Device.{
  Outcome, ok, abort, fault, ◌>>=◌, MsiVector, Machine, emit, Effect, watch, add_irqfd, close_fd,
  event_init,
}
use ntb_cxl.Interrupt.{init_vm_ids}
use ntb_cxl.Server.Peers.{set_peers, resize_peers, close_peer_eventfds}

-- What the handlers ask of KVM, of the MSI-X code of QEMU and of the system: `add_route` is
-- `kvm_irqchip_add_msi_route` by vector, `none` for a negative result; the last two are the
-- success of `fstat` and of `memory_region_init_ram_from_fd`.
pub record Host : Type 0 where
  pub irqfd_enabled : Bool
  pub msix_enabled : Bool
  pub msix_is_masked : ℕ → Bool
  pub add_route : ℕ → Option ℕ
  pub fstat_ok : Bool
  pub ram_ok : Bool

-- A handler's result: whether it has set `errp`, and the machine.
pub record Reply : Type 0 where
  pub failed : Bool
  pub machine : Machine

abbrev pub success : Machine → Outcome Reply
success m = ok (record { failed = false; machine = m })

abbrev pub failure : Machine → Outcome Reply
failure m = ok (record { failed = true; machine = emit Effect.error m })

abbrev pub failure_closing : Option ℕ → Machine → Outcome Reply
failure_closing none m = failure m
failure_closing (some fd) m = failure (emit (close_fd fd) m)

abbrev pub set_vector : Machine → (ℕ → MsiVector) → ℕ → ℕ → Machine
set_vector m vs vector virq = record m {
  dev = record (m.dev) {
    msi_vectors = some (update vs vector (record (vs vector) { has_pdev = true; virq = virq }));
  };
}

-- `watch_vector_notifier`.
unfoldable pub watch_vector_notifier : ℕ → Machine → Outcome Machine
watch_vector_notifier vector m = elim m.dev.msi_vectors [
  | none ↦ fault
  | some vs ↦
      if (vs vector).has_pdev
      then abort
      else ok (emit (watch vector) (set_vector m vs vector (vs vector).virq))
]

-- `ivshmem_add_kvm_msi_virq`.
unfoldable pub add_kvm_msi_virq : Host → ℕ → Machine → Outcome Reply
add_kvm_msi_virq host vector m = elim m.dev.msi_vectors [
  | none ↦ fault
  | some vs ↦ if (vs vector).has_pdev then abort else elim (host.add_route vector) [
    | none ↦ failure m
    | some virq ↦ success (set_vector m vs vector virq)
  ]
]

-- The first part of `setup_interrupt`, with the feature bit IVSHMEM_MSI.
unfoldable pub route_interrupt : Host → ℕ → Machine → Outcome Reply
unfolding watch_vector_notifier add_kvm_msi_virq
route_interrupt host vector m =
    if not (host.irqfd_enabled && is_nonzero (bit_and m.dev.features 2))
    then watch_vector_notifier vector m >>= success
    else if host.msix_enabled
    then (add_kvm_msi_virq host vector m >>= λ r.
        if r.failed || host.msix_is_masked vector
        then ok r
        else success (emit (add_irqfd vector) r.machine))
    else success m

-- `setup_interrupt`.
unfoldable pub setup_interrupt : Host → ℕ → Machine → Outcome Reply
unfolding route_interrupt init_vm_ids
setup_interrupt host vector m = route_interrupt host vector m >>= λ r.
    if r.failed then ok r else if vector == 1 then init_vm_ids r.machine >>= success else ok r

-- `process_msg_shmem`.
unfoldable pub process_msg_shmem : Host → Option ℕ → Machine → Outcome Reply
process_msg_shmem host fd m =
    if m.dev.has_bar2
    then failure_closing fd m
    else if not host.fstat_ok
    then failure_closing fd m
    else if not host.ram_ok
    then failure m
    else success (record m { dev = record (m.dev) { has_bar2 = true } })

-- `process_msg_disconnect`.
unfoldable pub process_msg_disconnect : ℕ → Machine → Outcome Reply
process_msg_disconnect posn m =
    if leb m.dev.nb_peers posn || posn == m.dev.vm_id
    then failure m
    else close_peer_eventfds posn m >>= success

-- The notifier of the next vector of the peer gets its descriptor.
abbrev pub add_eventfd : ℕ → ℕ → Machine → (ℕ → ℕ) → Machine
add_eventfd posn fd m fds =
    let n = (m.dev.peers posn).nb_eventfds in
    emit (event_init posn n) (
      set_peers m
        (update m.dev.peers posn
          (record { nb_eventfds = n + 1; eventfds = some (update fds n fd) }))
        m.dev.nb_peers)

-- `process_msg_connect`. With IOEVENTFD it also calls `ivshmem_add_eventfd`, whose body is empty.
unfoldable pub process_msg_connect : Host → ℕ → ℕ → Machine → Outcome Reply
process_msg_connect host posn fd m =
    let peer = m.dev.peers posn in
    if leb m.dev.vectors peer.nb_eventfds then failure_closing (some fd) m else elim peer.eventfds [
      | none ↦ fault
      | some fds ↦
          if posn == m.dev.vm_id
          then setup_interrupt host peer.nb_eventfds (add_eventfd posn fd m fds)
          else success (add_eventfd posn fd m fds)
    ]

abbrev pub ivshmem_max_peers : ℕ
ivshmem_max_peers = 65535

-- The part of `process_msg` for a position; `fd` is `none` for a negative descriptor.
unfoldable pub process_peer_msg : Host → ℕ → Option ℕ → Machine → Outcome Reply
process_peer_msg host posn fd m =
    (if leb m.dev.nb_peers posn then resize_peers (posn + 1) m else ok m) >>= λ m'. elim fd [
      | some n ↦ process_msg_connect host posn n m'
      | none ↦ process_msg_disconnect posn m'
    ]

-- `process_msg`.
unfoldable pub process_msg : Host → ℤ → Option ℕ → Machine → Outcome Reply
process_msg host (pos posn) fd m =
    if ltb ivshmem_max_peers posn then failure_closing fd m else process_peer_msg host posn fd m
process_msg host (negsuc ℕ.zero) fd m = process_msg_shmem host fd m
process_msg host (negsuc (ℕ.suc n)) fd m = failure_closing fd m
