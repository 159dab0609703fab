-- ===== src/Lifecycle.antt =====
-- Reset, the end of a device, and migration.
-- About qemu_src/hw/misc/idt_ntb_ivshmem.c, lines 1453 to 1477 and 1765 to 1830.
pub mod Close
pub mod Exit
use ntb_cxl.Prelude.{
  ℕ, zero, suc, ◌+◌, ◌-◌, ◌^◌, Bool, not, none, ◌==◌, if◌then◌else◌, is_nonzero, bit_and,
}
use ntb_cxl.Device.{
  Outcome, ok, abort, fault, ◌>>=◌, OnOffAuto, auto, on, off, Machine, emit, Effect, use_vector,
  uninit_msix, del_blocker, unmap, unregister_ram, close_fd,
}
use ntb_cxl.Server.{Reply, success, failure, close_peer_eventfds}
use ntb_cxl.Irqfd.Disable.{disable_irqfd}

-- The loop of `ivshmem_msix_vector_use` at `i`, with so many rounds left.
unfoldable pub use_vectors : ℕ → ℕ → Machine → Machine
use_vectors zero i m = m
use_vectors (suc left) i m = use_vectors left (i + 1) (emit (use_vector i) m)

-- `ivshmem_msix_vector_use`.
abbrev pub msix_vector_use : Machine → Machine
msix_vector_use m = use_vectors m.dev.vectors 0 m

-- `ivshmem_has_feature` for IVSHMEM_MSI.
abbrev pub has_msi : Machine → Bool
has_msi m = is_nonzero (bit_and m.dev.features 2)

-- `ivshmem_reset`, with the parameters of `disable_irqfd`.
unfoldable pub reset : Bool → (ℕ → Bool) → Machine → Outcome Machine
reset in_use remove_ok m =
    disable_irqfd in_use remove_ok m >>= λ m'. if has_msi m' then ok (msix_vector_use m') else ok m'

-- `ivshmem_pre_load`; `ivshmem_is_master` asserts that the role is settled.
unfoldable pub pre_load : Machine → Outcome Reply
pre_load m = elim m.dev.master [ auto ↦ abort | on ↦ success m | off ↦ failure m ]

-- `ivshmem_post_load`.
unfoldable pub post_load : Machine → Outcome Reply
post_load m = if has_msi m then success (msix_vector_use m) else success m

-- What `ivshmem_exit` finds: whether migration is blocked, whether BAR 2 is mapped, the size and the
-- descriptor of its memory, and the success of `munmap` by its length.
pub record ExitCalls : Type 0 where
  pub has_blocker : Bool
  pub bar2_mapped : Bool
  pub bar2_size : ℕ
  pub bar2_fd : ℕ
  pub munmap_ok : ℕ → Bool

-- The release of BAR 2. The length that `munmap` gets is the result of the comparison of the size
-- with -1. There is no memory backend: no property sets `hostmem`.
unfoldable pub release_bar2 : ExitCalls → Machine → Machine
release_bar2 calls m =
    let length = if calls.bar2_size == 2 ^ 64 - 1 then 1 else 0 in
    let m' = emit (unmap length) m in
    let told = if calls.munmap_ok length then m' else emit Effect.error m' in
    emit unregister_ram (emit (close_fd calls.bar2_fd) told)

-- `ivshmem_exit` up to its loop. `ivshmem_bar2` is NULL until the shared memory has come, and
-- `memory_region_is_mapped` reads what it points to.
unfoldable pub release_memory : ExitCalls → Machine → Outcome Machine
unfolding release_bar2
release_memory calls m =
    let unblocked = if calls.has_blocker then emit del_blocker m else m in
    if not unblocked.dev.has_bar2
    then fault
    else if calls.bar2_mapped
    then ok (release_bar2 calls unblocked)
    else ok unblocked

-- The loop over the peers at `i`, with so many left.
unfoldable pub close_peers : ℕ → ℕ → Machine → Outcome Machine
close_peers zero i m = ok m
close_peers (suc left) i m = close_peer_eventfds i m >>= close_peers left (i + 1)

-- The table of peers, which is NULL before the first `resize_peers`, when it has no places.
unfoldable pub release_peers : Machine → Outcome Machine
release_peers m =
    if m.dev.nb_peers == 0
    then ok m
    else (close_peers m.dev.nb_peers 0 m >>= λ m'. ok (emit Effect.free_peers m'))

-- The end of it.
unfoldable pub finish : Machine → Outcome Machine
finish m =
    let done = if has_msi m then emit uninit_msix m else m in
    ok (record done { dev = record (done.dev) { msi_vectors = none } })

-- `ivshmem_exit`.
unfoldable pub exit : ExitCalls → Machine → Outcome Machine
unfolding release_memory release_peers finish
exit calls m = release_memory calls m >>= release_peers >>= finish
