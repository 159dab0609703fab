-- ===== src/System/Pairing.antt =====
-- Two devices that know each other stay so, and no handler of either fails.
-- About qemu_src/hw/misc/idt_ntb_ivshmem.c, lines 598 to 727 and 989 to 1016.
use ntb_cxl.Prelude.{ℕ, ◌^◌, ◌<◌, ◌≡◌, sym, ap, ◌∙◌, subst, arith, Bool, true, some}
use ntb_cxl.Prelude.Int.{pos}
use ntb_cxl.Device.{
  Returns, Returns-bind, Returns-WhenOk, Side, at_vm1, at_vm2, opposite, wiring_of, IvShmemState,
  ShmStorage, Machine, vm_at, has_eventfd, bar_count,
}
use ntb_cxl.Mmio.{io_write}
use ntb_cxl.Interrupt.{vector_notify, learn_id}
use ntb_cxl.Isolation.{IsFramed, IsConnected, io_write-IsFramed}
use ntb_cxl.System.{System, write, view, write_through, perform, IsAllowed}
use ntb_cxl.System.Widths.{IsSized}
use ntb_cxl.System.Sized.{IsSizedAfter}
use ntb_cxl.System.Registers.{io_write-IsSized}
use ntb_cxl.System.Index.{HasIndex, io_write-HasIndex}

-- Device `d` of machine `p` is up and knows its peer by the id that stands in the shared memory.
pub record IsReady (p : Side) (d : IvShmemState) (sh : ShmStorage) : Type 0 where
  pub wired : d.wiring ≡ some (wiring_of p)
  pub own_id : (vm_at p sh).id ≡ d.vm_id
  pub small : d.vm_id < 2 ^ 16
  pub peer_small : (vm_at (opposite p) sh).id < 2 ^ 16
  pub other : d.other_vm_id ≡ pos (vm_at (opposite p) sh).id
  pub eventfd : has_eventfd d (vm_at (opposite p) sh).id 1 ≡ true
  pub own_eventfds : has_eventfd d d.vm_id 1 ≡ true
  pub own_id_eventfd : has_eventfd d d.vm_id 0 ≡ true
  pub window : d.lregs.inbound_mw_bar < bar_count

pub record IsPaired (s : System) : Type 0 where
  pub first : IsReady at_vm1 s.dev1 s.shm
  pub second : IsReady at_vm2 s.dev2 s.shm
  pub sized : IsSized s.shm

-- The ids are all that matters of the shared memory.
same_ids-IsReady :
    (p : Side) (d : IvShmemState) (sh sh' : ShmStorage)
    → IsReady p d sh
    → (vm_at p sh').id ≡ (vm_at p sh).id
    → (vm_at (opposite p) sh').id ≡ (vm_at (opposite p) sh).id
    → IsReady p d sh'
same_ids-IsReady p d sh sh' h own peer = record {
  wired = h.wired;
  own_id = own ∙ h.own_id;
  small = h.small;
  peer_small = subst (λ i. i < 2 ^ 16) (sym peer) h.peer_small;
  other = h.other ∙ ap pos (sym peer);
  eventfd = subst (λ i. has_eventfd d i 1 ≡ true) (sym peer) h.eventfd;
  own_eventfds = h.own_eventfds;
  own_id_eventfd = h.own_id_eventfd;
  window = h.window;
}

-- After a write through the device itself, and after one through the other.
writes-IsReady :
    (p : Side) (m m' : Machine)
    → IsReady p m.dev m.shm
    → IsFramed p m m'
    → HasIndex m'
    → IsReady p m'.dev m'.shm
writes-IsReady p m m' h f index =
    let r = same_ids-IsReady p m.dev m.shm m'.shm h f.own_id f.peer_id in
    subst (λ d. IsReady p d m'.shm) (sym f.device)
      (record {
        wired = r.wired;
        own_id = r.own_id;
        small = r.small;
        peer_small = r.peer_small;
        other = r.other;
        eventfd = r.eventfd;
        own_eventfds = r.own_eventfds;
        own_id_eventfd = r.own_id_eventfd;
        window = index;
      })

watches-IsReady :
    (p : Side) (d : IvShmemState) (m m' : Machine)
    → IsReady (opposite p) d m.shm
    → IsFramed p m m'
    → IsReady (opposite p) d m'.shm
watches-IsReady at_vm1 d m m' h f = same_ids-IsReady at_vm2 d m.shm m'.shm h f.peer_id f.own_id
watches-IsReady at_vm2 d m m' h f = same_ids-IsReady at_vm1 d m.shm m'.shm h f.peer_id f.own_id

connected :
    (p : Side) (m : Machine) → IsReady p m.dev m.shm → IsConnected (vm_at (opposite p) m.shm).id m
connected p m h = record { other = h.other; eventfd = h.eventfd; window = h.window }

-- What a write leaves: the frame, the widths and the index.
abbrev IsAfterWrite : Side → Machine → Machine → Type 0
IsAfterWrite p m m' = (IsFramed p m m' × IsSizedAfter m') × HasIndex m'

write-IsAfterWrite :
    (p : Side) (addr val : ℕ) (m : Machine)
    → IsReady p m.dev m.shm
    → IsSized m.shm
    → IsAllowed (write p addr val)
    → Returns (io_write (wiring_of p) addr val m) (IsAfterWrite p m)
write-IsAfterWrite p addr val m h s (small, signal, index) =
    Returns-WhenOk _ _ _
      (Returns-WhenOk _ _ _ (io_write-IsFramed p addr val _ m (connected p m h) signal)
        (io_write-IsSized (wiring_of p) addr val m s (omega arith)))
      (io_write-HasIndex (wiring_of p) addr val m h.window index)

pub write-IsPaired :
    (p : Side) (addr val : ℕ) (s : System)
    → IsPaired s
    → IsAllowed (write p addr val)
    → Returns (perform (write p addr val) s) IsPaired
unfolding perform
write-IsPaired at_vm1 addr val s h allowed =
    subst (λ o. Returns (write_through o at_vm1 addr val s) IsPaired) (sym h.first.wired)
      (Returns-bind (IsAfterWrite at_vm1 (view at_vm1 s)) IsPaired _ _
        (write-IsAfterWrite at_vm1 addr val (view at_vm1 s) h.first h.sized allowed)
        (λ m' k. record {
          first = writes-IsReady at_vm1 (view at_vm1 s) m' h.first k.0.0 k.1;
          second = watches-IsReady at_vm1 s.dev2 (view at_vm1 s) m' h.second k.0.0;
          sized = k.0.1;
        }))
write-IsPaired at_vm2 addr val s h allowed =
    subst (λ o. Returns (write_through o at_vm2 addr val s) IsPaired) (sym h.second.wired)
      (Returns-bind (IsAfterWrite at_vm2 (view at_vm2 s)) IsPaired _ _
        (write-IsAfterWrite at_vm2 addr val (view at_vm2 s) h.second h.sized allowed)
        (λ m' k. record {
          first = watches-IsReady at_vm2 s.dev1 (view at_vm2 s) m' h.first k.0.0;
          second = writes-IsReady at_vm2 (view at_vm2 s) m' h.second k.0.0 k.1;
          sized = k.0.1;
        }))

-- To read the other id again changes nothing.
learn-IsReady :
    (p : Side) (m : Machine)
    → IsReady p m.dev m.shm
    → IsReady p (learn_id (wiring_of p) m).dev m.shm
learn-IsReady at_vm1 m h = ground arith
learn-IsReady at_vm2 m h = ground arith

-- A delivery leaves the shared memory alone.
pub event-IsReady :
    (p : Side) (fired : Bool) (vector : ℕ) (m : Machine)
    → vector < 2
    → IsReady p m.dev m.shm
    → Returns (vector_notify fired vector m) λ m'. (m'.shm ≡ m.shm) × IsReady p m'.dev m'.shm
unfolding vector_notify
event-IsReady p fired vector m lt h = let learned = learn-IsReady p m h in ground (arith, learned)
