-- ===== src/System/Post.antt =====
-- A message from one guest to the other, with anything in between.
-- About qemu_src/hw/misc/idt_ntb_ivshmem.c, lines 421 to 463 and 598 to 825.
use ntb_cxl.Prelude.{ℕ, ◌+◌, ◌<◌, ◌≡◌, sym, ap, ◌∙◌, subst, List, ◌∷◌, update_self}
use ntb_cxl.Prelude.Bits.{bit}
use ntb_cxl.Prelude.Masks.{set_bit_self}
use ntb_cxl.Device.{
  Returns, Returns-map, Returns-bind, Returns-both, Side, at_vm1, at_vm2, opposite, wiring_of,
  Machine, regs_at, vm_at, ok, inmsg, inmsgsrc, msgsts, outmsg,
}
use ntb_cxl.Dispatch.{address, io_read-address}
use ntb_cxl.Mmio.{io_write, io_read, read_register}
use ntb_cxl.Messages.{IsFit, IsDelivered, outmsg-IsDelivered}
use ntb_cxl.System.{
  System, Action, write, dev_at, view, commit, write_through, perform, run, IsAllowed, All,
}
use ntb_cxl.System.Pairing.{IsReady, IsPaired}
use ntb_cxl.System.Run.{perform-IsPaired}
use ntb_cxl.System.Mail.{Spares, Holds, wired, run-Holds}

ready : (p : Side) (s : System) → IsPaired s → IsReady p (dev_at p s) s.shm
ready at_vm1 s h = h.first
ready at_vm2 s h = h.second

fit : (p : Side) (s : System) → IsPaired s → IsFit p (view p s)
fit p s h = record {
  int_mask = h.sized.globals.nt_int_mask;
  peer_mask = ((h.sized.vm (opposite p)).regs).msgsts_mask;
}

delivered-Holds :
    (p : Side) (i val q : ℕ) (s : System) (m : Machine)
    → IsDelivered p i val q (view p s) m
    → Holds (opposite p) i val (regs_at p s.shm).inbound_mw_part (commit p s m)
delivered-Holds p i val q s m del = go p del
  where
    go :
        (p : Side)
        → IsDelivered p i val q (view p s) m
        → Holds (opposite p) i val (regs_at p s.shm).inbound_mw_part (commit p s m)
    go at_vm1 del = (
      rw (del.status) (set_bit_self _ (16 + i)),
      ap (λ f. f i) del.message ∙ update_self s.shm.vm2.regs.msg i val,
      ap (λ f. f i) del.source ∙ update_self s.shm.vm2.regs.inb_msg_src i _,
    )
    go at_vm2 del = (
      rw (del.status) (set_bit_self _ (16 + i)),
      ap (λ f. f i) del.message ∙ update_self s.shm.vm1.regs.msg i val,
      ap (λ f. f i) del.source ∙ update_self s.shm.vm1.regs.inb_msg_src i _,
    )

outmsg-Holds :
    (p : Side) (i val : ℕ) (s : System)
    → i < 4
    → IsPaired s
    → bit (regs_at (opposite p) s.shm).msgsts (16 + i) ≡ 0
    → Returns
        (perform (write p (address (outmsg i)) val) s)
        (Holds (opposite p) i val (regs_at p s.shm).inbound_mw_part)
unfolding perform
outmsg-Holds p i val s lt h free =
    let r = ready p s h in
    let q = (vm_at (opposite p) s.shm).id in
    let source = (regs_at p s.shm).inbound_mw_part in
    subst
      (λ o.
        Returns (write_through o p (address (outmsg i)) val s) (Holds (opposite p) i val source))
      (sym (wired p s h))
      (Returns-bind (IsDelivered p i val q (view p s)) (Holds (opposite p) i val source)
        (io_write (wiring_of p) (address (outmsg i)) val (view p s)) (λ m. ok (commit p s m))
        (outmsg-IsDelivered p i val q (view p s) lt (fit p s h) r.other r.eventfd free)
        (λ m del. delivered-Holds p i val q s m del))

-- What the guest of machine `q` finds in message register `i`.
abbrev pub Reads : Side → ℕ → ℕ → ℕ → System → Type 0
Reads q i val source s =
    (requester : ℕ)
    → (io_read (wiring_of q) requester (address (inmsg i)) (dev_at q s) s.shm ≡ val)
      × (io_read (wiring_of q) requester (address (inmsgsrc i)) (dev_at q s) s.shm ≡ source)
      × (bit (io_read (wiring_of q) requester (address msgsts) (dev_at q s) s.shm) (16 + i) ≡ 1)

held-Reads :
    (q : Side) (i val source : ℕ) (s : System)
    → i < 4
    → Holds q i val source s
    → Reads q i val source s
unfolding read_register
held-Reads q i val source s lt k requester = (
  io_read-address (inmsg i) (wiring_of q) requester (dev_at q s) s.shm lt ∙ k.1,
  io_read-address (inmsgsrc i) (wiring_of q) requester (dev_at q s) s.shm lt ∙ k.2,
  rw (io_read-address msgsts (wiring_of q) requester (dev_at q s) s.shm tt) k.0,
)

-- A message is neither lost nor changed: machine `p` writes `val` to OUTMSGi while the peer's
-- register i is free, and then both guests write to any addresses and events are delivered in any
-- order. As long as the peer does not acknowledge place i by a write to MSGSTS with its bit, every
-- handler returns and the peer reads `val` from INMSGi, the sender's partition from INMSGSRCi, and
-- INMSGSTSi set. The devices are connected and the guests keep to `IsAllowed`.
pub outmsg-Reads :
    (p : Side) (i val : ℕ) (actions : List Action) (s : System)
    → i < 4
    → IsPaired s
    → bit (regs_at (opposite p) s.shm).msgsts (16 + i) ≡ 0
    → All IsAllowed (write p (address (outmsg i)) val ∷ actions)
    → All (Spares (opposite p) i) actions
    → Returns
        (run (write p (address (outmsg i)) val ∷ actions) s)
        (Reads (opposite p) i val (regs_at p s.shm).inbound_mw_part)
unfolding run
outmsg-Reads p i val actions s lt h free allowed spared =
    let source = (regs_at p s.shm).inbound_mw_part in
    Returns-bind _ (Reads (opposite p) i val source) (perform (write p (address (outmsg i)) val) s)
      (run actions)
      (Returns-both _ _ _ (perform-IsPaired (write p (address (outmsg i)) val) s allowed.0 h)
        (outmsg-Holds p i val s lt h free))
      (λ s' k.
        Returns-map _ (λ s'' held. held-Reads (opposite p) i val source s'' lt held)
          (run-Holds (opposite p) i val source actions s' lt allowed.1 spared k.0 k.1))
