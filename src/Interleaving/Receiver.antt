-- ===== src/Interleaving/Receiver.antt =====
-- What the handlers of the machine that receives leave alone.
-- About qemu_src/hw/misc/idt_ntb_ivshmem.c, lines 421 to 463 and 598 to 727.
use ntb_cxl.Prelude.{ℕ, ◌+◌, ◌^◌, ◌<◌, ◌≡◌, refl, ◌∙◌, arith, bit_and, bit_or, not64, List}
use ntb_cxl.Prelude.Bits.{bit, bit-bit_and}
use ntb_cxl.Prelude.Masks.{set_bit_ne}
use ntb_cxl.Device.{ShmStorage, IvShmemState, Side, at_vm1, at_vm2, opposite, wiring_of}
use ntb_cxl.Interleaving.{
  Place, status, partition, message, source, interrupt_mask, load, save, Handler,
}
use ntb_cxl.Interleaving.Race.{guest_program, Respects}
use ntb_cxl.Interleaving.Own.{IsElsewhere, guest-Respects}

-- Place `i` of machine `q` is free.
abbrev pub IsFree : Side → ℕ → ShmStorage → Type 0
IsFree q i sh = bit (load (status q) sh) (16 + i) ≡ 0

-- The message in place `i` of machine `q`, its source and the sender's partition are as before.
abbrev pub IsKept : Side → ℕ → ShmStorage → ShmStorage → Type 0
IsKept q i sh sh' =
    (load (message q i) sh' ≡ load (message q i) sh)
    × (load (source q i) sh' ≡ load (source q i) sh)
    × (load (partition (opposite q)) sh' ≡ load (partition (opposite q)) sh)

abbrev pub Always : ShmStorage → Type 0
Always sh = Unit

elsewhere-IsFree :
    (q : Side) (i : ℕ) (a : Place)
    → IsElsewhere q a
    → (v : ℕ) (sh : ShmStorage) → IsFree q i sh
    → IsFree q i (save a v sh)
unfolding load save
elsewhere-IsFree at_vm1 i interrupt_mask is v sh h = h
elsewhere-IsFree at_vm2 i interrupt_mask is v sh h = h
elsewhere-IsFree at_vm1 i a is v sh h = ground arith
elsewhere-IsFree at_vm2 i a is v sh h = ground arith

elsewhere-IsKept :
    (q : Side) (i : ℕ) (a : Place)
    → IsElsewhere q a
    → (v : ℕ) (sh : ShmStorage) → Always sh
    → IsKept q i sh (save a v sh)
unfolding load save
elsewhere-IsKept at_vm1 i interrupt_mask is v sh h = (refl, refl, refl)
elsewhere-IsKept at_vm2 i interrupt_mask is v sh h = (refl, refl, refl)
elsewhere-IsKept at_vm1 i a is v sh h = ground arith
elsewhere-IsKept at_vm2 i a is v sh h = ground arith

marks-IsFree :
    (q : Side) (i j : ℕ)
    → j < 4
    → (old sh : ShmStorage) → IsFree q i old
    → IsFree q i sh
    → IsFree q i (save (status q) (bit_or (load (status q) old) (2 ^ (0 + j))) sh)
unfolding load save
marks-IsFree at_vm1 i j lt old sh r h =
    set_bit_ne old.vm1.regs.msgsts (0 + j) (16 + i) (λ e. absurd (omega arith)) ∙ r
marks-IsFree at_vm2 i j lt old sh r h =
    set_bit_ne old.vm2.regs.msgsts (0 + j) (16 + i) (λ e. absurd (omega arith)) ∙ r

clears-IsFree :
    (q : Side) (i val : ℕ) (old sh : ShmStorage)
    → IsFree q i old
    → IsFree q i sh
    → IsFree q i (save (status q) (bit_and (load (status q) old) (not64 val)) sh)
unfolding load save
clears-IsFree at_vm1 i val old sh r h =
    omega (arith, bit-bit_and old.vm1.regs.msgsts (not64 val) (16 + i))
clears-IsFree at_vm2 i val old sh r h =
    omega (arith, bit-bit_and old.vm2.regs.msgsts (not64 val) (16 + i))

pub status-IsKept : (q : Side) (i v : ℕ) (sh : ShmStorage) → IsKept q i sh (save (status q) v sh)
unfolding load save
status-IsKept at_vm1 i v sh = (refl, refl, refl)
status-IsKept at_vm2 i v sh = (refl, refl, refl)

-- A machine's own handlers do not fill its mailbox.
pub guest-IsFree :
    (q : Side) (i : ℕ) (handlers : List Handler) (d : IvShmemState)
    → Respects (IsFree q i) (λ sh sh'. IsFree q i sh') (guest_program handlers (wiring_of q) d)
guest-IsFree q i =
    guest-Respects q (IsFree q i) (λ sh sh'. IsFree q i sh') (elsewhere-IsFree q i)
      (marks-IsFree q i) (clears-IsFree q i)

-- Nor do they write its messages, their sources, or the sender's partition.
pub guest-IsKept :
    (q : Side) (i : ℕ) (handlers : List Handler) (d : IvShmemState)
    → Respects Always (IsKept q i) (guest_program handlers (wiring_of q) d)
guest-IsKept q i =
    guest-Respects q Always (IsKept q i) (elsewhere-IsKept q i)
      (λ j lt old sh r h. status-IsKept q i _ sh) (λ val old sh r h. status-IsKept q i _ sh)
