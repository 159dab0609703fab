-- ===== src/Interleaving/Sender.antt =====
-- The accesses of `write_outbound_msg` to a free place, one after the other.
-- About qemu_src/hw/misc/idt_ntb_ivshmem.c, lines 421 to 463 and 598 to 727.
use ntb_cxl.Prelude.{
  ℕ, ◌+◌, ◌<◌, ◌≡◌, ◌⊎◌, inl, inr, refl, arith, Bool, if◌then◌else◌, true, false, List, update_self,
}
use ntb_cxl.Prelude.Int.{is_minus_one}
use ntb_cxl.Prelude.Masks.{test_bit}
use ntb_cxl.Device.{
  ShmStorage, IvShmemState, Side, at_vm1, at_vm2, opposite, wiring_of, ntintsts_msg, Effect,
}
use ntb_cxl.Interleaving.{
  status_mask, partition, message, source, load, save, Program, done, stopped, faulted, fetch, put,
  raise, announce_program, tell_program, when, minds_message, deliver_program, send_program,
  set_flags, interrupts, interrupt_mask, allows, notify_program,
}
use ntb_cxl.Interleaving.Race.{
  memory_after, rest_after, effects_after, Respects, when-Respects, notify-Respects,
}
use ntb_cxl.Interleaving.Receiver.{IsFree, IsKept, Always, status-IsKept}

-- The message and its source are in place `i` of machine `q`.
abbrev pub HasMessage : Side → ℕ → ℕ → ShmStorage → Type 0
HasMessage q i val sh = load (message q i) sh ≡ val

abbrev pub HasSource : Side → ℕ → ℕ → ShmStorage → Type 0
HasSource q i part sh = load (source q i) sh ≡ part

-- The partition of the machine that sends to `q`.
abbrev pub HasPartition : Side → ℕ → ShmStorage → Type 0
HasPartition q part sh = load (partition (opposite q)) sh ≡ part

-- Nothing is raised before the source is written, and until then the message is left alone; after
-- that all of it is.
abbrev pub IsEarly : Side → ℕ → ℕ → Program → Type 0
IsEarly q i part done = Unit
IsEarly q i part stopped = Unit
IsEarly q i part faulted = Unit
IsEarly q i part (fetch a next) =
    (sh : ShmStorage) → HasPartition q part sh → IsEarly q i part (next (load a sh))
IsEarly q i part (put a v next) =
    (((sh : ShmStorage) → IsKept q i sh (save a v sh)) × IsEarly q i part next)
    ⊎ ((a ≡ source q i) × (v ≡ part) × Respects Always (IsKept q i) next)
IsEarly q i part (raise e next) = ⊥

pub found_next :
    (p : Side) (i val : ℕ) (d : IvShmemState) (sh : ShmStorage)
    → i < 4
    → IsFree (opposite p) i sh
    → rest_after (send_program (wiring_of p) d i val) sh
      ≡ put (message (opposite p) i) val (deliver_program (wiring_of p) d i)
unfolding rest_after send_program load
found_next at_vm1 i val d sh lt free = ground (arith, test_bit sh.vm2.regs.msgsts (16 + i))
found_next at_vm2 i val d sh lt free = ground (arith, test_bit sh.vm1.regs.msgsts (16 + i))

pub found_still :
    (p : Side) (i val : ℕ) (d : IvShmemState) (sh : ShmStorage) (es : List Effect)
    → i < 4
    → (memory_after (send_program (wiring_of p) d i val) sh ≡ sh)
      × (effects_after (send_program (wiring_of p) d i val) es ≡ es)
unfolding memory_after effects_after send_program
found_still p i val d sh es lt = ground arith

pub message-HasMessage :
    (q : Side) (i val part : ℕ) (sh : ShmStorage)
    → HasPartition q part sh
    → HasMessage q i val (save (message q i) val sh)
      × HasPartition q part (save (message q i) val sh)
unfolding load save
message-HasMessage at_vm1 i val part sh h = (update_self sh.vm1.regs.msg i val, h)
message-HasMessage at_vm2 i val part sh h = (update_self sh.vm2.regs.msg i val, h)

pub source-HasSource :
    (q : Side) (i val part : ℕ) (sh : ShmStorage)
    → HasPartition q part sh
    → HasMessage q i val sh
    → HasMessage q i val (save (source q i) part sh)
      × HasSource q i part (save (source q i) part sh)
      × HasPartition q part (save (source q i) part sh)
unfolding load save
source-HasSource at_vm1 i val part sh h k = (k, update_self sh.vm1.regs.inb_msg_src i part, h)
source-HasSource at_vm2 i val part sh h k = (k, update_self sh.vm2.regs.inb_msg_src i part, h)

flags-IsKept :
    (p : Side) (i : ℕ) (d : IvShmemState)
    → Respects Always
        (IsKept (opposite p) i)
        (set_flags (interrupts (opposite p)) ntintsts_msg (notify_program d))
unfolding load save
flags-IsKept at_vm1 i d =
    λ old r. (λ sh k. (refl, refl, refl), notify-Respects Always (IsKept at_vm2 i) d)
flags-IsKept at_vm2 i d =
    λ old r. (λ sh k. (refl, refl, refl), notify-Respects Always (IsKept at_vm1 i) d)

tail-IsKept :
    (p : Side) (i : ℕ) (d : IvShmemState)
    → Respects Always (IsKept (opposite p) i) (
        when
          (status_mask (opposite p))
          (minds_message i)
          (tell_program (wiring_of p) d ntintsts_msg))
tail-IsKept p i d =
    when-Respects Always (IsKept (opposite p) i) (status_mask (opposite p)) (minds_message i)
      (tell_program (wiring_of p) d ntintsts_msg)
      (when-Respects Always (IsKept (opposite p) i) interrupt_mask (allows ntintsts_msg)
        (set_flags (interrupts (opposite p)) ntintsts_msg (notify_program d)) (flags-IsKept p i d))

if-IsEarly :
    (q : Side) (i part : ℕ) (b : Bool) (g h : Program)
    → IsEarly q i part g
    → IsEarly q i part h
    → IsEarly q i part (if b then g else h)
if-IsEarly q i part true g h x y = x
if-IsEarly q i part false g h x y = y

pub deliver-IsEarly :
    (p : Side) (i part : ℕ) (d : IvShmemState)
    → IsEarly (opposite p) i part (deliver_program (wiring_of p) d i)
unfolding deliver_program
deliver-IsEarly p i part d =
    if-IsEarly (opposite p) i part (is_minus_one d.other_vm_id) done
      (announce_program (wiring_of p) d i) tt
      (λ old h.
        inl (status-IsKept (opposite p) i _, λ sh k. inr (refl, own p sh k, tail-IsKept p i d)))
  where
    own :
        (p : Side) (sh : ShmStorage)
        → HasPartition (opposite p) part sh
        → load (partition p) sh ≡ part
    own at_vm1 sh k = k
    own at_vm2 sh k = k
