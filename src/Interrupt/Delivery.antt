-- ===== src/Interrupt/Delivery.antt =====
-- From a register write on one machine to the interrupt on the other, and the exchange of the
-- machines' ids. About qemu_src/hw/misc/idt_ntb_ivshmem.c, lines 585 to 594, 644 to 657 and 989
-- to 1016.
use ntb_cxl.Prelude.{ℕ, ◌^◌, ◌<◌, ◌≡◌, ◌≢◌, refl, ◌∙◌, arith, true, [], ◌∷◌, some}
use ntb_cxl.Prelude.Int.{pos}
use ntb_cxl.Prelude.Bits.{bit}
use ntb_cxl.Prelude.Masks.{set_bit_self}
use ntb_cxl.Device.{
  Outcome, ok, ◌>>=◌, Returns, Returns-map, Machine, IvShmemState, ShmStorage, Side, at_vm1, at_vm2,
  opposite, wiring_of, event_set, msi, has_eventfd, outdbellset, indbellsts, ntintsts,
}
use ntb_cxl.Dispatch.{address, io_read-address}
use ntb_cxl.Mmio.{io_write, io_read, read_register}
use ntb_cxl.Doorbell.{IsRung, hear, outdbellset-IsRung}
use ntb_cxl.Interrupt.{init_vm_ids, vector_notify}

-- Device `d` over memory `sh`, with no effects so far.
abbrev pub resume : IvShmemState → ShmStorage → Machine
resume d sh = record { dev = d; shm = sh; effects = [] }

-- Machine `p` has rung: the event for position `q` is raised, and when the device there, `d`, takes
-- it, it interrupts its guest once, which finds the doorbell bit in NTINTSTS and `val` in
-- INDBELLSTS.
abbrev pub IsAnswered : Side → ℕ → ℕ → IvShmemState → Machine → Machine → Type 0
IsAnswered p val q d m m' =
    (m'.effects ≡ event_set q 1 ∷ m.effects)
    × Returns (vector_notify true 1 (resume d m'.shm)) λ n.
      (n.effects ≡ msi 0 ∷ [])
      × ((requester : ℕ)
          → (bit (io_read (wiring_of (opposite p)) requester (address ntintsts) n.dev n.shm) 1 ≡ 1)
            × (io_read (wiring_of (opposite p)) requester (address indbellsts) n.dev n.shm ≡ val))

answer :
    (p : Side) (val q : ℕ) (d : IvShmemState) (m m' : Machine)
    → val < 2 ^ 32
    → bit m.shm.gregs.nt_int_mask 1 ≡ 0
    → has_eventfd d d.vm_id 1 ≡ true
    → IsRung p val q m m'
    → IsAnswered p val q d m m'
unfolding vector_notify read_register
answer p val q d m m' small open_mask fd rung = (
  rung.event ∙ rw open_mask,
  rw fd (
    refl,
    λ requester. (
      rw
          (
            io_read-address ntintsts (wiring_of (opposite p)) requester d m'.shm tt,
            rung.interrupt,
            open_mask,
          )
          (set_bit_self _ 1),
      hear p val q m m' small rung d requester,
    ),
  ),
)

-- A doorbell crosses the bridge. If the global mask lets doorbells through and both devices have
-- their event descriptors, a write of `val` to OUTDBELLSET raises the event of the peer, and the
-- peer's handler then interrupts its guest once; that guest reads the doorbell bit from NTINTSTS
-- and `val` from INDBELLSTS.
pub outdbellset-IsAnswered :
    (p : Side) (val q : ℕ) (d : IvShmemState) (m : Machine)
    → val < 2 ^ 32
    → m.shm.gregs.nt_int_mask < 2 ^ 32
    → bit m.shm.gregs.nt_int_mask 1 ≡ 0
    → m.dev.other_vm_id ≡ pos q
    → has_eventfd m.dev q 1 ≡ true
    → has_eventfd d d.vm_id 1 ≡ true
    → Returns (io_write (wiring_of p) (address outdbellset) val m) (IsAnswered p val q d m)
outdbellset-IsAnswered p val q d m small fit open_mask other fd peer_fd =
    Returns-map _ (λ m' rung. answer p val q d m m' small open_mask peer_fd rung)
      (outdbellset-IsRung p val q m fit other fd)

-- The start of the two devices: the first publishes its id, the second publishes its own, reads
-- the first one's and raises an event, and the first then reads the second one's.
abbrev pub exchange : IvShmemState → IvShmemState → ShmStorage → Outcome (Machine × Machine)
exchange first second sh = init_vm_ids (resume first sh) >>= λ a.
    init_vm_ids (resume second a.shm) >>= λ b.
    vector_notify true 0 (record a { shm = b.shm }) >>= λ a'. ok (a', b)

-- After the exchange each device knows the other's id, and the second has raised exactly the event
-- of vector 0 at the first one's position. The first device has number 0 and the second another.
exchange_lem :
    (first second : IvShmemState) (sh : ShmStorage)
    → first.self_number ≡ 0
    → second.self_number ≢ 0
    → first.wiring ≡ some (wiring_of at_vm1)
    → second.wiring ≡ some (wiring_of at_vm2)
    → first.vm_id < 2 ^ 16
    → second.vm_id < 2 ^ 16
    → has_eventfd first first.vm_id 0 ≡ true
    → has_eventfd second first.vm_id 0 ≡ true
    → Returns (exchange first second sh) λ r.
      (r.0.dev.other_vm_id ≡ pos second.vm_id)
      × (r.1.dev.other_vm_id ≡ pos first.vm_id)
      × (r.1.effects ≡ event_set first.vm_id 0 ∷ [])
unfolding init_vm_ids vector_notify
exchange_lem first second sh zero_number number w1 w2 small1 small2 fd1 fd2 = ground arith
