-- ===== src/Realize/Up.antt =====
-- When `ivshmem_common_realize` fails after the set-up by the server, and what it leaves.
-- About qemu_src/hw/misc/idt_ntb_ivshmem.c, lines 1669 to 1763.
use ntb_cxl.Prelude.{
  ℕ, ◌<◌, ◌≡◌, refl, sym, subst, Bool, true, false, ◌&&◌, ◌||◌, not, ◌==◌, if◌then◌else◌, some,
}
use ntb_cxl.Device.{
  Returns, Returns-bind, ◌>>=◌, Outcome, ok, OnOffAuto, Machine, ShmStorage, emit, Effect,
  bar_count, wiring_of,
}
use ntb_cxl.Server.{Reply, success, failure}
use ntb_cxl.Lifecycle.{has_msi}
use ntb_cxl.Realize.{
  PciCalls, setup_interrupts, is_on, resolve_master, take_role, finish_realize, side_of,
  realize_registers,
}
use ntb_cxl.Realize.Ports.{IsRealized, realize_registers-IsRealized}
use ntb_cxl.Realize.Interrupts.{IsAlike, setup_interrupts-IsAlike}

-- A device that has failed has left the shared memory alone, and one that has not is up.
pub data IsFinished (i self_number : ℕ) (master : OnOffAuto) (sh : ShmStorage) (r : Reply)
    : Bool → Type 0 where
  refused : r.failed ≡ true → r.machine.shm ≡ sh → IsFinished i self_number master sh r true
  up :
      r.failed ≡ false
      → r.machine.dev.wiring ≡ some (wiring_of (side_of self_number))
      → r.machine.dev.master ≡ master
      → IsRealized (side_of self_number) i sh r.machine.shm
      → IsFinished i self_number master sh r false

-- The same of the part from machine `m` on, with the reason for a failure.
abbrev Finishes : ℕ → Machine → Bool → Outcome Reply → Type 0
Finishes i m b o =
    Returns o
      λ r. IsFinished i m.dev.self_number (resolve_master m.dev.master m.dev.vm_id) m.shm r b

realize_registers-IsFinished :
    (i : ℕ) (m : Machine)
    → i < bar_count
    → IsFinished i m.dev.self_number m.dev.master m.shm
        (record { failed = false; machine = realize_registers m })
        false
unfolding realize_registers
realize_registers-IsFinished i m lt =
    let ports = realize_registers-IsRealized m i lt in up refl ports.0 refl ports.1

take_role-Finishes :
    (pci : PciCalls) (i : ℕ) (m : Machine)
    → i < bar_count
    → Finishes i m
        (not (is_on (resolve_master m.dev.master m.dev.vm_id)) && not pci.add_blocker_ok)
        (take_role pci m)
unfolding take_role
take_role-Finishes pci i m lt =
    go (is_on (resolve_master m.dev.master m.dev.vm_id)) pci.add_blocker_ok
  where
    settled : Machine
    settled = record m { dev = record (m.dev) { master = resolve_master m.dev.master m.dev.vm_id } }

    go :
        (b c : Bool)
        → Finishes i m (not b && not c) (
            if b
            then success (realize_registers (emit Effect.register_ram settled))
            else if c
            then success
                (realize_registers (emit Effect.register_ram (emit Effect.add_blocker settled)))
            else failure settled)
    go true c = realize_registers-IsFinished i (emit Effect.register_ram settled) lt
    go false true =
        realize_registers-IsFinished i (emit Effect.register_ram (emit Effect.add_blocker settled))
          lt
    go false false = refused refl refl

msi-Finishes :
    (pci : PciCalls) (i : ℕ) (m : Machine)
    → i < bar_count
    → Finishes i m
        (not pci.msi_init_ok
          || (not (is_on (resolve_master m.dev.master m.dev.vm_id)) && not pci.add_blocker_ok))
        (if pci.msi_init_ok then take_role pci (emit Effect.init_msi m) else failure m)
msi-Finishes pci i m lt = go pci.msi_init_ok
  where
    go :
        (b : Bool)
        → Finishes i m
            (not b
              || (not (is_on (resolve_master m.dev.master m.dev.vm_id)) && not pci.add_blocker_ok))
            (if b then take_role pci (emit Effect.init_msi m) else failure m)
    go true = take_role-Finishes pci i (emit Effect.init_msi m) lt
    go false = refused refl refl

-- The reasons for a failure: the device is to be the master and is not the first one, or one of
-- three calls of QEMU fails, of which the last is made for a device that is not the master.
abbrev pub is_refused : PciCalls → Machine → Bool
is_refused pci m =
    (is_on m.dev.master && not (m.dev.vm_id == 0))
    || ((has_msi m && not pci.msix_init_ok)
        || (not pci.msi_init_ok
            || (not (is_on (resolve_master m.dev.master m.dev.vm_id)) && not pci.add_blocker_ok)))

after-Finishes :
    (pci : PciCalls) (i : ℕ) (m : Machine)
    → i < bar_count
    → Finishes i m
        ((has_msi m && not pci.msix_init_ok)
          || (not pci.msi_init_ok
              || (not (is_on (resolve_master m.dev.master m.dev.vm_id)) && not pci.add_blocker_ok)))
        (setup_interrupts pci m >>= λ r.
          if r.failed
          then ok r
          else if pci.msi_init_ok
          then take_role pci (emit Effect.init_msi r.machine)
          else failure r.machine)
after-Finishes pci i m lt =
    Returns-bind (λ r. (r.failed ≡ (has_msi m && not pci.msix_init_ok)) × IsAlike m r.machine)
      (λ r. IsFinished i m.dev.self_number (resolve_master m.dev.master m.dev.vm_id) m.shm r (
        (has_msi m && not pci.msix_init_ok)
        || (not pci.msi_init_ok
            || (not (is_on (resolve_master m.dev.master m.dev.vm_id)) && not pci.add_blocker_ok))))
      (setup_interrupts pci m) (λ r. if r.failed then ok r else rest r)
      (setup_interrupts-IsAlike pci m)
      (λ r h.
        subst (Ends r (has_msi m && not pci.msix_init_ok)) (sym h.0)
          (pick r (has_msi m && not pci.msix_init_ok) h.0 h.1))
  where
    rest : Reply → Outcome Reply
    rest r =
        if pci.msi_init_ok
        then take_role pci (emit Effect.init_msi r.machine)
        else failure r.machine

    later : OnOffAuto → Bool
    later master = not pci.msi_init_ok || (not (is_on master) && not pci.add_blocker_ok)

    Ends : Reply → Bool → Bool → Type 0
    Ends r b x =
        Finishes i m (b || later (resolve_master m.dev.master m.dev.vm_id))
          (if x then ok r else rest r)

    pick : (r : Reply) (b : Bool) → r.failed ≡ b → IsAlike m r.machine → Ends r b b
    pick r true e same = refused e same.0
    pick r false e same =
        subst
          (λ sh. Returns (rest r) λ r'.
            let master = resolve_master m.dev.master m.dev.vm_id in
            IsFinished i m.dev.self_number master sh r' (later master))
          same.0
          (subst
            (λ n. Returns (rest r) λ r'.
              let master = resolve_master m.dev.master m.dev.vm_id in
              IsFinished i n master r.machine.shm r' (later master))
            same.1
            (subst
              (λ master.
                Returns (rest r) λ r'.
                  IsFinished i r.machine.dev.self_number master r.machine.shm r' (later master))
              same.2 (msi-Finishes pci i r.machine lt)))

-- When a device comes up, and what it leaves. `ivshmem_common_realize` returns after the set-up by
-- the server, whatever the calls of QEMU return, and fails for exactly the reasons of `is_refused`.
-- When it fails, the memory that the machines share is as it was; otherwise the device's pointers
-- are those of its side, its role is settled, and the storage is that of `IsRealized` at every BAR:
-- in particular the interrupt mask is set whatever it was before, so the second machine to come up
-- masks the interrupts that the first has let through.
pub finish_realize-IsFinished :
    (pci : PciCalls) (m : Machine) (i : ℕ)
    → i < bar_count
    → Returns (finish_realize pci m) λ r.
      IsFinished i m.dev.self_number
        (resolve_master m.dev.master m.dev.vm_id)
        m.shm
        r
        (is_refused pci m)
unfolding finish_realize
finish_realize-IsFinished pci m i lt = go (is_on m.dev.master && not (m.dev.vm_id == 0))
  where
    go :
        (b : Bool)
        → Finishes i m
            (b
              || ((has_msi m && not pci.msix_init_ok)
                  || (not pci.msi_init_ok
                      || (not (is_on (resolve_master m.dev.master m.dev.vm_id))
                          && not pci.add_blocker_ok))))
            (if b
              then failure m
              else setup_interrupts pci (emit Effect.set_handlers m) >>= λ r.
                  if r.failed
                  then ok r
                  else if pci.msi_init_ok
                  then take_role pci (emit Effect.init_msi r.machine)
                  else failure r.machine)
    go true = refused refl refl
    go false = after-Finishes pci i (emit Effect.set_handlers m) lt
