-- ===== src/Config/Routes.antt =====
-- Switching MSI-X on and off. About qemu_src/hw/misc/idt_ntb_ivshmem.c, lines 1496 to 1600.
use ntb_cxl.Prelude.{
  ℕ, ◌<◌, ◌≡◌, ◌≢◌, ◌≤◌, refl, sym, ap, subst, arith, Bool, true, false, none, some, Option, ◌==◌,
  if◌then◌else◌, Bool-cases, inl, inr,
}
use ntb_cxl.Device.{
  ok, ◌>>=◌, Returns, Returns-map, Returns-bind, Machine, MsiVector, bar, setup, wiring_of, Side,
}
use ntb_cxl.Server.{Host}
use ntb_cxl.Irqfd.{enable_irqfd}
use ntb_cxl.Irqfd.Undo.{IsRouted}
use ntb_cxl.Irqfd.Enable.{IsEnabled, unrouted, answered, enable_irqfd-IsEnabled}
use ntb_cxl.Irqfd.Keep.{SamePeers, IsMasked, answer}
use ntb_cxl.Irqfd.Calls.{IsOrderly}
use ntb_cxl.Irqfd.Stale.{released-IsRouted}
use ntb_cxl.Irqfd.Disable.{disable_irqfd, disable_irqfd-IsReleased}
use ntb_cxl.Config.{MsixCalls, write_config, read_config}
use ntb_cxl.Dispatch.{address, io_read-address}
use ntb_cxl.Mmio.{io_read, read_register}

-- The configuration space shows the set-up of BAR 0 that register BARSETUP0 shows, and everything
-- else as the PCI layer has it.
pub read_config-io_read :
    (p : Side) (found : ℕ → ℕ) (requester addr : ℕ) (m : Machine)
    → m.dev.wiring ≡ some (wiring_of p)
    → read_config found addr m
      ≡ ok (
          if addr == address (bar setup 0)
          then io_read (wiring_of p) requester addr m.dev m.shm
          else found addr)
unfolding read_config read_register io_read
read_config-io_read p found requester addr m wired =
    elim (Bool-cases (addr == address (bar setup 0))) [
      | inl setup0 ↦
          let at : addr ≡ address (bar setup 0) = ground arith in
          rw (wired, at)
            (sym (
              ap ok
                (io_read-address (bar setup 0) (wiring_of p) requester m.dev m.shm (omega arith))))
      | inr other ↦ rw other refl
    ]

disable-IsRouted :
    (remove_ok : ℕ → Bool) (n : ℕ) (accepted : Bool) (m : Machine)
    → m.dev.vm_id < m.dev.nb_peers
    → (m.dev.peers m.dev.vm_id).nb_eventfds ≡ n
    → (m.dev.peers m.dev.vm_id).eventfds ≢ none
    → n ≤ m.dev.vectors
    → IsRouted (if accepted then n else 0) m.dev.msi_vectors
    → Returns (disable_irqfd accepted remove_ok m) (λ m'. IsRouted 0 m'.dev.msi_vectors)
unfolding disable_irqfd
disable-IsRouted remove_ok n false m known count there few h = h
disable-IsRouted remove_ok n true m known count there few h = go m.dev.msi_vectors refl h
  where
    go :
        (o : Option (ℕ → MsiVector))
        → m.dev.msi_vectors ≡ o
        → IsRouted n o
        → Returns (disable_irqfd true remove_ok m) (λ m'. IsRouted 0 m'.dev.msi_vectors)
    go none e routed = absurd routed
    go (some vs) e routed =
        Returns-map (disable_irqfd true remove_ok m)
          (λ (m' : Machine) k.
            released-IsRouted (m.dev.peers m.dev.vm_id).nb_eventfds vs m'.dev.msi_vectors
              (rw count routed) k)
          (disable_irqfd-IsReleased remove_ok m vs known there (rw count few) e)

switch_on :
    (host : Host) (msix : MsixCalls) (m : Machine)
    → host.irqfd_enabled ≡ true
    → (msix.was_enabled ≡ false) × (msix.is_enabled ≡ true)
    → write_config host msix m ≡ enable_irqfd host msix.notifying m
unfolding write_config
switch_on host msix m enabled up = ground arith

switch_off :
    (host : Host) (msix : MsixCalls) (m : Machine)
    → host.irqfd_enabled ≡ true
    → (msix.was_enabled ≡ true) × (msix.is_enabled ≡ false)
    → write_config host msix m ≡ disable_irqfd msix.in_use msix.remove_ok m
unfolding write_config
switch_off host msix m enabled down = ground arith

write_config-off :
    (host : Host) (msix : MsixCalls) (m : Machine)
    → host.irqfd_enabled ≡ false
    → write_config host msix m ≡ ok m
unfolding write_config
write_config-off host msix m disabled = ground arith

-- `pdev->msix_vector_use_notifier` is there.
abbrev pub is_set : Option Bool → Bool
is_set none = false
is_set (some accepted) = accepted

enabled-IsRouted :
    (host : Host) (remove_ok : ℕ → Bool) (n : ℕ) (m : Machine)
    → m.dev.vm_id < m.dev.nb_peers
    → (m.dev.peers m.dev.vm_id).nb_eventfds ≡ n
    → (m.dev.peers m.dev.vm_id).eventfds ≢ none
    → n ≤ m.dev.vectors
    → IsEnabled host n m
    → Returns
        (disable_irqfd (is_set (answer m.effects)) remove_ok m)
        (λ m'. IsRouted 0 m'.dev.msi_vectors)
enabled-IsRouted host remove_ok n m known count there few (unrouted bad routed e) =
    rw e (disable-IsRouted remove_ok n false m known count there few routed)
enabled-IsRouted host remove_ok n m known count there few (answered accepted good routed e) =
    rw e (disable-IsRouted remove_ok n accepted m known count there few routed)

-- A guest that switches MSI-X on and off again leaves no route behind, whatever KVM answers to any
-- of the calls in between, and each handler returns. The second handler finds a notifier in use
-- exactly if the last `msix_set_vector_notifiers` has accepted it and it has not been unset. At the
-- start the device has its array, with `n` descriptors, no more than it has vectors, and no
-- notifiers, and no vector has a route or is unmasked; inside `msix_set_vector_notifiers` QEMU
-- unmasks and masks each vector of the device at most once.
pub write_config-IsRouted :
    (host : Host) (first second : MsixCalls) (n : ℕ) (m : Machine)
    → m.dev.vm_id < m.dev.nb_peers
    → (m.dev.peers m.dev.vm_id).eventfds ≢ none
    → (m.dev.peers m.dev.vm_id).nb_eventfds ≡ n
    → n ≤ m.dev.vectors
    → IsRouted 0 m.dev.msi_vectors
    → IsMasked m.dev.msi_vectors
    → answer m.effects ≡ none
    → IsOrderly m.dev.vectors (λ _. true) (λ _. false) first.notifying
    → (first.was_enabled ≡ false) × (first.is_enabled ≡ true)
    → (second.was_enabled ≡ true) × (second.is_enabled ≡ false)
    → Returns
        (write_config host first m >>= λ m'.
          write_config host (record second { in_use = is_set (answer m'.effects) }) m')
        (λ m'. IsRouted 0 m'.dev.msi_vectors)
write_config-IsRouted host first second n m known there count few routed masked unanswered orderly
      up down =
    elim (Bool-cases host.irqfd_enabled) [
      | inl enabled ↦ rw (switch_on host first m enabled up) (
          Returns-bind (λ m'. IsEnabled host n m' × SamePeers m.dev m'.dev)
            (λ m'. IsRouted 0 m'.dev.msi_vectors) (enable_irqfd host first.notifying m) _
            (enable_irqfd-IsEnabled host first.notifying n m known there count routed masked
              unanswered orderly)
            (λ m' k.
              subst (λ o. Returns o (λ m''. IsRouted 0 m''.dev.msi_vectors))
                (sym (
                  switch_off host (record second { in_use = is_set (answer m'.effects) }) m' enabled
                    down))
                (enabled-IsRouted host second.remove_ok n m' (rw (k.1.1, k.1.2) known)
                  (rw (k.1.0, k.1.2) count) (rw (k.1.0, k.1.2) there) (rw k.1.3 few) k.0)))
      | inr disabled ↦ rw (write_config-off host first m disabled) (
          subst (λ o. Returns o (λ m'. IsRouted 0 m'.dev.msi_vectors))
            (sym (
              write_config-off host (record second { in_use = is_set (answer m.effects) }) m
                disabled))
            routed)
    ]
