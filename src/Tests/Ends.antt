-- ===== src/Tests/Ends.antt =====
-- MSI-X vectors, switching MSI-X, and the end of a device.
use ntb_cxl.Prelude.{ℕ, ◌≡◌, false, true, some, none, ◌==◌, refl, arith, if◌then◌else◌}
use ntb_cxl.Device.{Returns, fault, ◌>>=◌, Machine, MsiVector}
use ntb_cxl.Server.{Host, process_msg_disconnect}
use ntb_cxl.Irqfd.Undo.{IsRouted}
use ntb_cxl.Callbacks.{
  KvmCalls, vector_unmask, vector_mask, vector_poll, Notifying, returns, unmasks, masks, polls,
}
use ntb_cxl.Irqfd.Keep.{answer}
use ntb_cxl.Irqfd.Vectors.{IsExactly, IsRestored, vector_poll-IsPolled, vector_mask-vector_unmask}
use ntb_cxl.Config.{MsixCalls, write_config}
use ntb_cxl.Config.Routes.{is_set, write_config-IsRouted}
use ntb_cxl.Lifecycle.{ExitCalls, exit}
use ntb_cxl.Lifecycle.Exit.{IsEnded, exit-IsEnded, exit-disconnect}
use ntb_cxl.Tests.Data.{storage, dev_a, on_storage}

-- KVM gives a route to the first vector only.
abbrev host : Host
host = record {
  irqfd_enabled = true;
  msix_enabled = true;
  msix_is_masked = λ _. false;
  add_route = λ i. if i == 0 then some 5 else none;
  fstat_ok = true;
  ram_ok = true;
}

abbrev bare : ℕ → MsiVector
bare i = record { has_pdev = false; virq = 0; unmasked = false }

abbrev routed : ℕ → MsiVector
routed i = record { has_pdev = true; virq = 5; unmasked = false }

abbrev with_vectors : (ℕ → MsiVector) → Machine
with_vectors vs = record (on_storage storage) { dev = record dev_a { msi_vectors = some vs } }

abbrev kvm : KvmCalls
kvm = record { update_ok = λ _. true; irqfd_ok = λ _. true }

vector_poll-IsPolled_example :
    Returns
      (vector_poll (λ _. true) (λ i. i == 1) 0 100 (with_vectors routed))
      (IsExactly (λ _. true) (λ i. i == 1) 0 100 (with_vectors routed))
vector_poll-IsPolled_example =
    vector_poll-IsPolled (λ _. true) (λ i. i == 1) 0 100 (with_vectors routed) refl

vector_mask-vector_unmask_example :
    Returns
      (vector_unmask kvm 1 (0xFEE00000, 0x41) (with_vectors routed) >>= λ r.
        vector_mask (λ _. true) 1 r.machine)
      (λ m'. IsRestored routed m'.dev.msi_vectors)
vector_mask-vector_unmask_example =
    vector_mask-vector_unmask kvm (λ _. true) 1 (0xFEE00000, 0x41) (with_vectors routed) routed refl
      refl refl refl refl

-- QEMU unmasks both vectors, has no route for the second, masks the first again and gives up.
abbrev notifying : Notifying
notifying =
    unmasks kvm 0 (0xFEE00000, 0x41)
      λ refused.
        if refused
        then returns false
        else unmasks kvm 1 (0xFEE00000, 0x42)
            λ failed.
              if failed
              then masks (λ _. true) 0 (returns false)
              else polls (λ _. true) (λ _. true) 0 2 (returns true)

abbrev up : MsixCalls
up = record {
  was_enabled = false;
  is_enabled = true;
  notifying = notifying;
  in_use = false;
  remove_ok = λ _. true;
}

abbrev down : MsixCalls
down = record up { was_enabled = true; is_enabled = false; in_use = true }

write_config-IsRouted_example :
    Returns
      (write_config host up (with_vectors bare) >>= λ m'.
        write_config host (record down { in_use = is_set (answer m'.effects) }) m')
      (λ m'. IsRouted 0 m'.dev.msi_vectors)
write_config-IsRouted_example =
    write_config-IsRouted host up down 1 (with_vectors bare) (omega arith) (λ e. ground arith) refl
      (omega arith) (λ i. ground arith) (λ i. refl) refl
      (omega arith, refl, tt, (omega arith, refl, (omega arith, refl, tt), tt)) (refl, refl)
      (refl, refl)

abbrev calls : ExitCalls
calls = record {
  has_blocker = true;
  bar2_mapped = true;
  bar2_size = 0x100000;
  bar2_fd = 9;
  munmap_ok = λ length. if length == 0 then false else true;
}

exit-IsEnded_example : Returns (exit calls (with_vectors routed)) (IsEnded (with_vectors routed))
exit-IsEnded_example =
    exit-IsEnded calls (with_vectors routed) refl (omega arith) (λ j lt e. ground arith)

exit-disconnect_example :
    Returns (process_msg_disconnect 3 (with_vectors routed)) (λ r. exit calls r.machine ≡ fault)
exit-disconnect_example =
    exit-disconnect calls 3 (with_vectors routed) (omega arith) (λ e. absurd (omega arith))
      (λ e. ground arith)
