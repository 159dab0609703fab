-- ===== src/System/Start.antt =====
-- From the exchange of ids to a connected pair.
-- About qemu_src/hw/misc/idt_ntb_ivshmem.c, lines 585 to 594 and 989 to 1016.
use ntb_cxl.Prelude.{ℕ, ◌^◌, ◌<◌, ◌≡◌, ◌≢◌, refl, sym, ap, subst, arith, true, some, List}
use ntb_cxl.Prelude.Int.{pos}
use ntb_cxl.Device.{
  Outcome, ◌>>=◌, Returns, Returns-map, Returns-bind, Machine, IvShmemState, ShmStorage, Side,
  at_vm1, at_vm2, wiring_of, has_eventfd, bar_count, vm_at, opposite,
}
use ntb_cxl.Interrupt.{init_vm_ids, vector_notify}
use ntb_cxl.Interrupt.Delivery.{exchange}
use ntb_cxl.System.{System, Action, run, IsAllowed, All}
use ntb_cxl.System.Widths.{IsSized, set_vm-IsSized}
use ntb_cxl.System.Pairing.{IsReady, IsPaired}
use ntb_cxl.System.Run.{run-IsPaired}

-- A device that has come up on side `p`, with the server's descriptors of the peer and of itself.
pub record IsUp (p : Side) (d : IvShmemState) (peer_id : ℕ) : Type 0 where
  pub wired : d.wiring ≡ some (wiring_of p)
  pub small : d.vm_id < 2 ^ 16
  pub peer_id_eventfd : has_eventfd d peer_id 0 ≡ true
  pub peer_eventfd : has_eventfd d peer_id 1 ≡ true
  pub own_id_eventfd : has_eventfd d d.vm_id 0 ≡ true
  pub own_eventfds : has_eventfd d d.vm_id 1 ≡ true
  pub window : d.lregs.inbound_mw_bar < bar_count

-- The storage with the ids of both.
with_ids : IvShmemState → IvShmemState → ShmStorage → ShmStorage
with_ids first second sh = record sh {
  vm1 = record (sh.vm1) { id = first.vm_id };
  vm2 = record (sh.vm2) { id = second.vm_id };
}

-- What the exchange comes to.
abbrev system : Machine × Machine → System
system (a, b) = record { dev1 = a.dev; dev2 = b.dev; shm = b.shm }

exchange-system :
    (first second : IvShmemState) (sh : ShmStorage)
    → first.self_number ≡ 0
    → second.self_number ≢ 0
    → IsUp at_vm1 first second.vm_id
    → IsUp at_vm2 second first.vm_id
    → Returns (exchange first second sh) λ r. system r ≡ record {
      dev1 = record first { other_vm_id = pos second.vm_id };
      dev2 = record second { other_vm_id = pos first.vm_id };
      shm = with_ids first second sh;
    }
unfolding init_vm_ids vector_notify with_ids
exchange-system first second sh zero_number number up1 up2 = ground arith

with_ids-IsSized :
    (first second : IvShmemState) (sh : ShmStorage)
    → IsSized sh
    → IsSized (with_ids first second sh)
unfolding with_ids
with_ids-IsSized first second sh h =
    set_vm-IsSized at_vm2 (record (sh.vm2) { id = second.vm_id })
      (record sh { vm1 = record (sh.vm1) { id = first.vm_id } })
      (set_vm-IsSized at_vm1 (record (sh.vm1) { id = first.vm_id }) sh h
        (record { regs = (h.vm at_vm1).regs; bars = (h.vm at_vm1).bars }))
      (record { regs = (h.vm at_vm2).regs; bars = (h.vm at_vm2).bars })

up-IsReady :
    (p : Side) (d : IvShmemState) (peer_id : ℕ) (sh : ShmStorage)
    → IsUp p d peer_id
    → peer_id < 2 ^ 16
    → (vm_at p sh).id ≡ d.vm_id
    → (vm_at (opposite p) sh).id ≡ peer_id
    → IsReady p (record d { other_vm_id = pos peer_id }) sh
up-IsReady p d peer_id sh up small own peer = record {
  wired = up.wired;
  own_id = own;
  small = up.small;
  peer_small = subst (λ i. i < 2 ^ 16) (sym peer) small;
  other = ap pos (sym peer);
  eventfd = subst (λ i. has_eventfd d i 1 ≡ true) (sym peer) up.peer_eventfd;
  own_eventfds = up.own_eventfds;
  own_id_eventfd = up.own_id_eventfd;
  window = up.window;
}

pub exchange-IsPaired :
    (first second : IvShmemState) (sh : ShmStorage)
    → first.self_number ≡ 0
    → second.self_number ≢ 0
    → IsUp at_vm1 first second.vm_id
    → IsUp at_vm2 second first.vm_id
    → IsSized sh
    → Returns (exchange first second sh) (λ r. IsPaired (system r))
unfolding with_ids
exchange-IsPaired first second sh zero_number number up1 up2 sized =
    Returns-map {Q = λ r. IsPaired (system r)} (exchange first second sh)
      (λ r e. subst IsPaired (sym e) (record {
        first =
            up-IsReady at_vm1 first second.vm_id (with_ids first second sh) up1 up2.small refl refl;
        second =
            up-IsReady at_vm2 second first.vm_id (with_ids first second sh) up2 up1.small refl refl;
        sized = with_ids-IsSized first second sh sized;
      }))
      (exchange-system first second sh zero_number number up1 up2)

-- The exchange, and then a run of both machines.
abbrev pub start : List Action → IvShmemState → IvShmemState → ShmStorage → Outcome System
start actions first second sh = exchange first second sh >>= λ r. run actions (system r)

-- From the start on: two devices that have come up, the first with number 0 and the second with
-- another, each with the server's descriptors of both, exchange their ids, whatever ids the storage
-- held before; then, along every interleaving of writes of both guests, to any address of BAR 0,
-- and of deliveries of events, every handler returns and the devices stay connected. The storage's
-- registers keep to their widths at the start, and the guests keep to `IsAllowed`.
pub run-exchange :
    (actions : List Action) (first second : IvShmemState) (sh : ShmStorage)
    → first.self_number ≡ 0
    → second.self_number ≢ 0
    → IsUp at_vm1 first second.vm_id
    → IsUp at_vm2 second first.vm_id
    → IsSized sh
    → All IsAllowed actions
    → Returns (start actions first second sh) IsPaired
run-exchange actions first second sh zero_number number up1 up2 sized allowed =
    Returns-bind (λ r. IsPaired (system r)) IsPaired (exchange first second sh) _
      (exchange-IsPaired first second sh zero_number number up1 up2 sized)
      (λ r h. run-IsPaired actions (system r) allowed h)
