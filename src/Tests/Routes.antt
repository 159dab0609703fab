-- ===== src/Tests/Routes.antt =====
-- Routes of KVM: switched on, switched off, and on again.
use ntb_cxl.Prelude.{ℕ, ltb, ◌≡◌, false, true, some, none, ◌==◌, if◌then◌else◌, refl, arith}
use ntb_cxl.Device.{Returns, abort, Machine, MsiVector}
use ntb_cxl.Server.{Host}
use ntb_cxl.Irqfd.{enable_irqfd}
use ntb_cxl.Irqfd.Enable.{IsEnabled, enable_irqfd-IsEnabled}
use ntb_cxl.Irqfd.Stale.{enable_irqfd-disable_irqfd}
use ntb_cxl.Irqfd.Keep.{SamePeers}
use ntb_cxl.Callbacks.{KvmCalls, Notifying, returns, unmasks}
use ntb_cxl.Irqfd.Disable.{disable_irqfd, IsReleased, disable_irqfd-IsReleased}
use ntb_cxl.Tests.Data.{storage, dev_a, on_storage}

abbrev host : Host
host = record {
  irqfd_enabled = true;
  msix_enabled = true;
  msix_is_masked = λ _. false;
  add_route = λ i. if i == 0 then some 5 else none;
  fstat_ok = true;
  ram_ok = true;
}

-- KVM gives every route.
abbrev willing : Host
willing = record host { add_route = λ _. some 5 }

abbrev m : Machine
m = record (on_storage storage) {
  dev = record dev_a {
    peers = λ _. record { nb_eventfds = 2; eventfds = some (λ _. 7) };
    msi_vectors = some (λ _. record { has_pdev = false; virq = 0; unmasked = false });
  };
}

abbrev kvm : KvmCalls
kvm = record { update_ok = λ _. true; irqfd_ok = λ _. true }

-- QEMU unmasks the first vector and accepts the notifiers.
abbrev notifying : Notifying
notifying = unmasks kvm 0 (0xFEE00000, 0x41) λ _. returns true

enable_irqfd-IsEnabled_example :
    Returns (enable_irqfd willing notifying m) λ m'. IsEnabled willing 2 m' × SamePeers m.dev m'.dev
enable_irqfd-IsEnabled_example =
    enable_irqfd-IsEnabled willing notifying 2 m (omega arith) (λ e. ground arith) refl
      (λ i. ground arith) (λ i. refl) refl (omega arith, refl, tt, tt)

-- Both vectors have routes, and the first one is unmasked.
abbrev two_routed : ℕ → MsiVector
two_routed i = record { has_pdev = ltb i 2; virq = 5; unmasked = i == 0 }

abbrev enabled : Machine
enabled = record m { dev = record (m.dev) { msi_vectors = some two_routed } }

disable_irqfd-IsReleased_example :
    Returns
      (disable_irqfd true (λ _. true) enabled)
      (λ m'. IsReleased 0 2 two_routed m'.dev.msi_vectors)
disable_irqfd-IsReleased_example =
    disable_irqfd-IsReleased (λ _. true) enabled two_routed (omega arith) (λ e. ground arith)
      (omega arith) refl

-- KVM does not let the event of the first vector go.
enable_irqfd-disable_irqfd_example :
    Returns
      (disable_irqfd true (λ _. false) enabled)
      (λ m'. enable_irqfd willing notifying m' ≡ abort)
enable_irqfd-disable_irqfd_example =
    enable_irqfd-disable_irqfd willing kvm (λ _. false) 0 2 (0xFEE00000, 0x41) (λ _. returns true)
      enabled two_routed (omega arith) (λ e. ground arith) refl (omega arith) refl
      (λ i. ground arith) (omega arith) refl refl refl
