-- ===== src/Interleaving/Partway.antt =====
-- A receiver that finds the status bit of a message before its source.
-- About qemu_src/hw/misc/idt_ntb_ivshmem.c, lines 421 to 463.
use ntb_cxl.Prelude.{
  ℕ, ◌+◌, ◌^◌, ◌<◌, ◌≡◌, refl, ap, ◌∙◌, arith, false, bit_or, bit_and, List, [], ◌∷◌, update_self,
  ltb, is_nonzero,
}
use ntb_cxl.Prelude.Int.{is_minus_one}
use ntb_cxl.Prelude.Bits.{bit}
use ntb_cxl.Prelude.Masks.{test_bit, set_bit_self}
use ntb_cxl.Device.{
  ShmStorage, IvShmemState, Side, at_vm1, at_vm2, opposite, wiring_of, fld_inmsgsts,
}
use ntb_cxl.Interleaving.{
  status, message, source, load, save, Program, source_program, send_program, deliver_program,
  announce_program, Handler,
}
use ntb_cxl.Interleaving.Race.{Turn, one, Race, step, interleave, guest_program}
use ntb_cxl.Interleaving.Receiver.{IsFree}
use ntb_cxl.Interleaving.Publish.{sending}

-- The sender up to and including line 451.
abbrev pub to_status : List Turn
to_status = one ∷ one ∷ one ∷ one ∷ []

unfoldable pub marked : Side → ℕ → ℕ → ShmStorage → ShmStorage
marked q i val sh =
    save (status q) (bit_or (load (status q) sh) (2 ^ fld_inmsgsts i)) (save (message q i) val sh)

module _ (i val : ℕ) (d : IvShmemState) (second : Program) (sh : ShmStorage) (lt : i < 4)
    (known : is_minus_one d.other_vm_id ≡ false) where
  unfoldable pub race : Side → Race
  race p = record {
    first = send_program (wiring_of p) d i val;
    second = second;
    shm = sh;
    raised1 = [];
    raised2 = [];
  }

  unfoldable pub reached : Side → Race
  reached p = record {
    first = source_program (wiring_of p) d i;
    second = second;
    shm = marked (opposite p) i val sh;
    raised1 = [];
    raised2 = [];
  }

  pub to_status_lem :
      (p : Side) → IsFree (opposite p) i sh → interleave to_status (race p) ≡ reached p
  unfolding race reached marked interleave step send_program deliver_program announce_program load
      save
  to_status_lem at_vm1 free =
      let low : ltb 3 i ≡ false = ground arith in
      let clear : is_nonzero (bit_and sh.vm2.regs.msgsts (2 ^ (16 + i))) ≡ false =
        ground (arith, test_bit sh.vm2.regs.msgsts (16 + i)) in
      rw (low, clear, known) refl
  to_status_lem at_vm2 free =
      let low : ltb 3 i ≡ false = ground arith in
      let clear : is_nonzero (bit_and sh.vm1.regs.msgsts (2 ^ (16 + i))) ≡ false =
        ground (arith, test_bit sh.vm1.regs.msgsts (16 + i)) in
      rw (low, clear, known) refl

pub marked_lem :
    (q : Side) (i val : ℕ) (sh : ShmStorage)
    → (bit (load (status q) (marked q i val sh)) (16 + i) ≡ 1)
      × (load (message q i) (marked q i val sh) ≡ val)
      × (load (source q i) (marked q i val sh) ≡ load (source q i) sh)
unfolding load save marked
marked_lem at_vm1 i val sh =
    (set_bit_self sh.vm1.regs.msgsts (16 + i), update_self sh.vm1.regs.msg i val, refl)
marked_lem at_vm2 i val sh =
    (set_bit_self sh.vm2.regs.msgsts (16 + i), update_self sh.vm2.regs.msg i val, refl)

-- The status bit comes before the source: for every message to a connected peer with place i free,
-- whatever the peer's guest does, there is an order of accesses after which the status bit is set
-- and the message there, with the source that place i had before.
pub source-late :
    (p : Side) (i val : ℕ) (d e : IvShmemState) (handlers : List Handler) (sh : ShmStorage)
    → i < 4
    → is_minus_one d.other_vm_id ≡ false
    → bit (load (status (opposite p)) sh) (16 + i) ≡ 0
    → (schedule : List Turn) × (bit
          (load (status (opposite p)) (interleave schedule (sending p i val d e handlers sh)).shm)
          (16 + i)
        ≡ 1)
      × (load (message (opposite p) i) (interleave schedule (sending p i val d e handlers sh)).shm
          ≡ val)
      × (load (source (opposite p) i) (interleave schedule (sending p i val d e handlers sh)).shm
          ≡ load (source (opposite p) i) sh)
unfolding race reached
source-late p i val d e handlers sh lt known free =
    let there =
      to_status_lem i val d (guest_program handlers (wiring_of (opposite p)) e) sh lt known p
        free in
    let end = marked_lem (opposite p) i val sh in
    (
      to_status,
      ap (λ r. bit (load (status (opposite p)) r.shm) (16 + i)) there ∙ end.0,
      ap (λ r. load (message (opposite p) i) r.shm) there ∙ end.1,
      ap (λ r. load (source (opposite p) i) r.shm) there ∙ end.2,
    )
