-- ===== src/Doorbell.antt =====
-- The doorbell, and the status registers that are cleared by writing ones.
-- About qemu_src/hw/misc/idt_ntb_ivshmem.c, lines 624 to 627 and 644 to 670.
use ntb_cxl.Prelude.{
  ℕ, ◌-◌, ◌^◌, ◌<◌, ◌≡◌, arith, bit_or, min, true, ◌∷◌, ◌==◌, if◌then◌else◌, u32, not64, bit_and,
  ◌∙◌, refl, sym, ap, subst,
}
use ntb_cxl.Prelude.Int.{pos, minus_one}
use ntb_cxl.Prelude.Bits.{bit, bit_and-le}
use ntb_cxl.Prelude.Masks.{test_not32, clear_bits}
use ntb_cxl.Device.{
  Returns, Returns-map, Returns-bind, ◌>>=◌, Machine, Side, at_vm1, at_vm2, opposite, wiring_of,
  vm_at, regs_at, IvShmemState, event_set, has_eventfd, outdbellset, indbellsts, ntintsts, msgsts,
}
use ntb_cxl.Dispatch.{address, io_write-address, io_read-address}
use ntb_cxl.Mmio.{ring_doorbell, io_write, io_read, write_register, read_register}

-- `m'` is `m` after machine `p` rang its peer, at position `q` of the server.
pub record IsRung (p : Side) (val q : ℕ) (m m' : Machine) : Type 0 where
  pub doorbell : (regs_at (opposite p) m'.shm).db ≡ u32 val
  pub own : vm_at p m'.shm ≡ vm_at p m.shm
  pub messages : (regs_at (opposite p) m'.shm).msgsts ≡ (regs_at (opposite p) m.shm).msgsts
  pub globals : m'.shm.gregs ≡ m.shm.gregs
  pub device : m'.dev ≡ m.dev
  pub interrupt : (regs_at (opposite p) m'.shm).intsts ≡ (
      if bit m.shm.gregs.nt_int_mask 1 == 0
      then bit_or (regs_at (opposite p) m.shm).intsts 2
      else (regs_at (opposite p) m.shm).intsts)
  pub event :
      m'.effects
      ≡ (if bit m.shm.gregs.nt_int_mask 1 == 0 then event_set q 1 ∷ m.effects else m.effects)

ring :
    (p : Side) (val q : ℕ) (m : Machine)
    → m.shm.gregs.nt_int_mask < 2 ^ 32
    → m.dev.other_vm_id ≡ pos q
    → has_eventfd m.dev q 1 ≡ true
    → Returns (ring_doorbell (wiring_of p) val m) (IsRung p val q m)
unfolding ring_doorbell
ring at_vm1 val q m fit other fd = ground (arith, test_not32 m.shm.gregs.nt_int_mask 1)
ring at_vm2 val q m fit other fd = ground (arith, test_not32 m.shm.gregs.nt_int_mask 1)

-- A write to OUTDBELLSET, with the peer connected, replaces the peer's doorbell by the value's low
-- 32 bits. Exactly if the global mask lets doorbells through, it sets the peer's interrupt status
-- and raises its event; the peer's own doorbell mask is not consulted.
pub outdbellset-IsRung :
    (p : Side) (val q : ℕ) (m : Machine)
    → m.shm.gregs.nt_int_mask < 2 ^ 32
    → m.dev.other_vm_id ≡ pos q
    → has_eventfd m.dev q 1 ≡ true
    → Returns (io_write (wiring_of p) (address outdbellset) val m) (IsRung p val q m)
unfolding write_register
outdbellset-IsRung p val q m fit other fd =
    rw (io_write-address outdbellset (wiring_of p) val m tt) (ring p val q m fit other fd)

-- Before a peer is known, a write to OUTDBELLSET stores the doorbell and raises nothing.
pub outdbellset-alone :
    (p : Side) (val : ℕ) (m : Machine)
    → m.dev.other_vm_id ≡ minus_one
    → Returns (io_write (wiring_of p) (address outdbellset) val m) λ m'.
      ((regs_at (opposite p) m'.shm).db ≡ u32 val)
      × ((regs_at (opposite p) m'.shm).intsts ≡ (regs_at (opposite p) m.shm).intsts)
      × (m'.effects ≡ m.effects)
      × (vm_at p m'.shm ≡ vm_at p m.shm)
unfolding write_register ring_doorbell
outdbellset-alone at_vm1 val m alone =
    rw (io_write-address outdbellset (wiring_of at_vm1) val m tt) (ground arith)
outdbellset-alone at_vm2 val m alone =
    rw (io_write-address outdbellset (wiring_of at_vm2) val m tt) (ground arith)

-- The peer of machine `p` reads `val` from its doorbell.
abbrev pub Hears : Side → ℕ → Machine → Type 0
Hears p val m' =
    (d : IvShmemState) (requester : ℕ)
    → io_read (wiring_of (opposite p)) requester (address indbellsts) d m'.shm ≡ val

pub hear :
    (p : Side) (val q : ℕ) (m m' : Machine) → val < 2 ^ 32 → IsRung p val q m m' → Hears p val m'
unfolding read_register
hear p val q m m' small rung d requester =
    rw (io_read-address indbellsts (wiring_of (opposite p)) requester d m'.shm tt)
      (rung.doorbell ∙ omega arith)

-- Round trip: what a connected machine wrote to OUTDBELLSET, its peer reads from INDBELLSTS.
pub indbellsts-outdbellset :
    (p : Side) (val q : ℕ) (m : Machine)
    → val < 2 ^ 32
    → m.shm.gregs.nt_int_mask < 2 ^ 32
    → m.dev.other_vm_id ≡ pos q
    → has_eventfd m.dev q 1 ≡ true
    → Returns (io_write (wiring_of p) (address outdbellset) val m) (Hears p val)
indbellsts-outdbellset p val q m small fit other fd =
    Returns-map _ (λ m' rung. hear p val q m m' small rung)
      (outdbellset-IsRung p val q m fit other fd)

-- What a second ring leaves of the first: nothing. After writes of `first` and then `second` to
-- OUTDBELLSET, with no read in between, the peer's doorbell is `second` alone.
pub outdbellset-overwrites :
    (p : Side) (first second q : ℕ) (m : Machine)
    → m.shm.gregs.nt_int_mask < 2 ^ 32
    → m.dev.other_vm_id ≡ pos q
    → has_eventfd m.dev q 1 ≡ true
    → Returns
        (io_write (wiring_of p) (address outdbellset) first m
          >>= io_write (wiring_of p) (address outdbellset) second)
        (λ m'. (regs_at (opposite p) m'.shm).db ≡ u32 second)
outdbellset-overwrites p first second q m fit other fd =
    Returns-bind (IsRung p first q m) (λ m'. (regs_at (opposite p) m'.shm).db ≡ u32 second)
      (io_write (wiring_of p) (address outdbellset) first m)
      (io_write (wiring_of p) (address outdbellset) second)
      (outdbellset-IsRung p first q m fit other fd)
      (λ m' rung.
        Returns-map _ (λ (m'' : Machine) (again : IsRung p second q m' m''). again.doorbell)
          (outdbellset-IsRung p second q m'
            (subst (λ g. g.nt_int_mask < 2 ^ 32) (sym rung.globals) fit)
            (ap (λ d. d.other_vm_id) rung.device ∙ other)
            (ap (λ d. has_eventfd d q 1) rung.device ∙ fd)))

-- Digit `k` of `after` is that of `before`, cleared if it is 1 in `val`.
abbrev pub IsCleared : ℕ → ℕ → ℕ → ℕ → Type 0
IsCleared val k before after = bit after k ≡ min (bit before k) (1 - bit val k)

db-IsCleared :
    (db val k : ℕ)
    → db < 2 ^ 32
    → val < 2 ^ 64
    → k < 64
    → IsCleared val k db (u32 (bit_and db (not64 val)))
db-IsCleared db val k fit small lt =
    let same : u32 (bit_and db (not64 val)) ≡ bit_and db (not64 val) =
      omega (arith, bit_and-le db db (not64 val)) in
    rw same (clear_bits db val k small lt)

-- Nothing of the peer, and no effect.
abbrev pub IsPrivate : Side → Machine → Machine → Type 0
IsPrivate p m m' = (vm_at (opposite p) m'.shm ≡ vm_at (opposite p) m.shm) × (m'.effects ≡ m.effects)

-- INDBELLSTS, MSGSTS and NTINTSTS are cleared by writing ones: in a write of `val`, digit `k` of the
-- register is cleared if it is 1 in `val` and kept otherwise; the peer's part and the effects
-- stay as they were.
pub status-IsCleared :
    (p : Side) (val k : ℕ) (m : Machine)
    → val < 2 ^ 64
    → k < 64
    → (regs_at p m.shm).db < 2 ^ 32
    → Returns
        (io_write (wiring_of p) (address indbellsts) val m)
        (λ m'. IsCleared val k (regs_at p m.shm).db (regs_at p m'.shm).db × IsPrivate p m m')
      × Returns (io_write (wiring_of p) (address msgsts) val m) (λ m'.
        IsCleared val k (regs_at p m.shm).msgsts (regs_at p m'.shm).msgsts × IsPrivate p m m')
      × Returns (io_write (wiring_of p) (address ntintsts) val m) (λ m'.
        IsCleared val k (regs_at p m.shm).intsts (regs_at p m'.shm).intsts × IsPrivate p m m')
unfolding write_register
status-IsCleared at_vm1 val k m small lt fit =
    rw
      (
        io_write-address indbellsts (wiring_of at_vm1) val m tt,
        io_write-address msgsts (wiring_of at_vm1) val m tt,
        io_write-address ntintsts (wiring_of at_vm1) val m tt,
      )
      (
        (db-IsCleared m.shm.vm1.regs.db val k fit small lt, (refl, refl)),
        (clear_bits m.shm.vm1.regs.msgsts val k small lt, (refl, refl)),
        (clear_bits m.shm.vm1.regs.intsts val k small lt, (refl, refl)),
      )
status-IsCleared at_vm2 val k m small lt fit =
    rw
      (
        io_write-address indbellsts (wiring_of at_vm2) val m tt,
        io_write-address msgsts (wiring_of at_vm2) val m tt,
        io_write-address ntintsts (wiring_of at_vm2) val m tt,
      )
      (
        (db-IsCleared m.shm.vm2.regs.db val k fit small lt, (refl, refl)),
        (clear_bits m.shm.vm2.regs.msgsts val k small lt, (refl, refl)),
        (clear_bits m.shm.vm2.regs.intsts val k small lt, (refl, refl)),
      )
