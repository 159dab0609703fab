-- ===== src/Interleaving/Lost.antt =====
-- An acknowledgement of another message takes the status bit of a message away.
-- About qemu_src/hw/misc/idt_ntb_ivshmem.c, lines 421 to 463 and 666 to 670.
use ntb_cxl.Prelude.{
  ℕ, ◌+◌, ◌<◌, ◌≡◌, refl, ap, ◌∙◌, arith, false, bit_and, not64, List, [], ◌∷◌, ◌++◌,
}
use ntb_cxl.Prelude.Int.{is_minus_one}
use ntb_cxl.Prelude.Bits.{bit, bit-bit_and}
use ntb_cxl.Device.{
  ShmStorage, IvShmemState, Side, at_vm1, at_vm2, opposite, wiring_of, ntintsts_msg,
}
use ntb_cxl.Interleaving.{
  status, message, source, load, save, Program, done, put, source_program, set_flags, interrupts,
  notify_program, when, status_mask, minds_message, tell_program, interrupt_mask, allows,
  clear_status, program,
}
use ntb_cxl.Interleaving.Race.{
  Turn, one, two, Race, step, interleave, guest_program, Respects, rest-Respects, memory-Respects,
  ◌>>>◌, rest_after, memory_after, effects_after, when-Respects, notify-Respects,
}
use ntb_cxl.Interleaving.Receiver.{IsFree}
use ntb_cxl.Interleaving.Publish.{sending}
use ntb_cxl.Interleaving.Partway.{to_status, marked, race, reached, to_status_lem, marked_lem}

interleave-append :
    (xs ys : List Turn) (r : Race) → interleave (xs ++ ys) r ≡ interleave ys (interleave xs r)
unfolding interleave
interleave-append [] ys r = refl
interleave-append (x ∷ xs) ys r = interleave-append xs ys (step x r)

-- Programs that do not fill the mailbox.
abbrev Leaves : Side → ℕ → Program → Type 0
Leaves q i = Respects (IsFree q i) (λ sh sh'. IsFree q i sh')

interleave-IsFree :
    (q : Side) (i : ℕ) (schedule : List Turn) (r : Race)
    → Leaves q i r.first
    → Leaves q i r.second
    → IsFree q i r.shm
    → IsFree q i (interleave schedule r).shm
unfolding interleave step
interleave-IsFree q i [] r a b h = h
interleave-IsFree q i (one ∷ schedule) r a b h =
    let G : ShmStorage → ShmStorage → Type 0 = λ sh sh'. IsFree q i sh' in
    interleave-IsFree q i schedule (step one r) (rest-Respects (IsFree q i) G r.first r.shm h a) b
      (memory-Respects (IsFree q i) G r.first r.shm h a h)
interleave-IsFree q i (two ∷ schedule) r a b h =
    let G : ShmStorage → ShmStorage → Type 0 = λ sh sh'. IsFree q i sh' in
    interleave-IsFree q i schedule (step two r) a (rest-Respects (IsFree q i) G r.second r.shm h b)
      (memory-Respects (IsFree q i) G r.second r.shm h b h)

flags-Leaves :
    (p : Side) (i : ℕ) (d : IvShmemState)
    → Leaves (opposite p) i (set_flags (interrupts (opposite p)) ntintsts_msg (notify_program d))
unfolding load save
flags-Leaves at_vm1 i d =
    λ old r. (λ sh k. k, notify-Respects (IsFree at_vm2 i) (λ sh sh'. IsFree at_vm2 i sh') d)
flags-Leaves at_vm2 i d =
    λ old r. (λ sh k. k, notify-Respects (IsFree at_vm1 i) (λ sh sh'. IsFree at_vm1 i sh') d)

tell-Leaves :
    (p : Side) (i : ℕ) (d : IvShmemState)
    → Leaves (opposite p) i (
        when
          (status_mask (opposite p))
          (minds_message i)
          (tell_program (wiring_of p) d ntintsts_msg))
tell-Leaves p i d =
    let q : Side = opposite p in
    let R : ShmStorage → Type 0 = IsFree q i in
    let G : ShmStorage → ShmStorage → Type 0 = λ sh sh'. IsFree q i sh' in
    when-Respects R G (status_mask q) (minds_message i) (tell_program (wiring_of p) d ntintsts_msg)
      (when-Respects R G interrupt_mask (allows ntintsts_msg)
        (set_flags (interrupts q) ntintsts_msg (notify_program d)) (flags-Leaves p i d))

put_source-IsFree :
    (q : Side) (i v : ℕ) (sh : ShmStorage) → IsFree q i sh → IsFree q i (save (source q i) v sh)
unfolding load save
put_source-IsFree at_vm1 i v sh h = h
put_source-IsFree at_vm2 i v sh h = h

source-Leaves :
    (p : Side) (i : ℕ) (d : IvShmemState) → Leaves (opposite p) i (source_program (wiring_of p) d i)
source-Leaves p i d = λ old r. (λ sh k. put_source-IsFree (opposite p) i _ sh k, tell-Leaves p i d)

-- What the guest of `q` still has to write when it has read MSGSTS.
clearing : Side → ℕ → ℕ → Program
clearing q v old = put (status q) (bit_and old (not64 v)) done

cleared-IsFree :
    (q : Side) (i v old : ℕ) (sh : ShmStorage)
    → bit old (16 + i) ≡ 0
    → IsFree q i (save (status q) (bit_and old (not64 v)) sh)
unfolding load save
cleared-IsFree at_vm1 i v old sh h = ground (arith, bit-bit_and old (not64 v) (16 + i), h)
cleared-IsFree at_vm2 i v old sh h = ground (arith, bit-bit_and old (not64 v) (16 + i), h)

module _ (i val v : ℕ) (d e : IvShmemState) (sh : ShmStorage) (lt : i < 4)
    (known : is_minus_one d.other_vm_id ≡ false) where
  abbrev answering : Side → Race
  answering p = sending p i val d e (clear_status v ∷ []) sh

  abbrev acknowledgement : Side → Program
  acknowledgement p = clearing (opposite p) v (load (status (opposite p)) sh)

  read_lem : (p : Side) → step two (answering p) ≡ race i val d (acknowledgement p) sh lt known p
  unfolding step rest_after memory_after effects_after guest_program program ◌>>>◌ clearing race
  read_lem at_vm1 = refl
  read_lem at_vm2 = refl

  both_lem :
      (p : Side)
      → IsFree (opposite p) i sh
      → interleave (two ∷ to_status) (answering p)
        ≡ reached i val d (acknowledgement p) sh lt known p
  unfolding interleave
  both_lem p free =
      ap (interleave to_status) (read_lem p)
      ∙ to_status_lem i val d (acknowledgement p) sh lt known p free

  after-IsFree :
      (p : Side) (rest : List Turn)
      → IsFree (opposite p) i sh
      → IsFree
          (opposite p)
          i
          (interleave (two ∷ rest) (reached i val d (acknowledgement p) sh lt known p)).shm
  unfolding interleave step clearing reached rest_after memory_after
  after-IsFree p rest free =
      interleave-IsFree (opposite p) i rest
        (step two (reached i val d (acknowledgement p) sh lt known p)) (source-Leaves p i d) tt
        (cleared-IsFree (opposite p) i v (load (status (opposite p)) sh)
          (marked (opposite p) i val sh) free)

-- A message can be lost: for every message to a connected peer with place i free, the peer's guest
-- writes any `v` to MSGSTS, also one that does not name place i. When it reads MSGSTS first and
-- writes it after line 451, the status bit is set in between, and the message there, and from its
-- write on, whatever comes after, the status bit of the message is clear.
pub status-lost :
    (p : Side) (i val v : ℕ) (d e : IvShmemState) (sh : ShmStorage) (rest : List Turn)
    → i < 4
    → is_minus_one d.other_vm_id ≡ false
    → bit (load (status (opposite p)) sh) (16 + i) ≡ 0
    → (bit
          (load
            (status (opposite p))
            (interleave (two ∷ to_status) (sending p i val d e (clear_status v ∷ []) sh)).shm)
          (16 + i)
        ≡ 1)
      × (load
            (message (opposite p) i)
            (interleave (two ∷ to_status) (sending p i val d e (clear_status v ∷ []) sh)).shm
          ≡ val)
      × (bit
            (load
              (status (opposite p))
              (interleave
                ((two ∷ to_status) ++ (two ∷ rest))
                (sending p i val d e (clear_status v ∷ []) sh)).shm)
            (16 + i)
          ≡ 0)
unfolding reached
status-lost p i val v d e sh rest lt known free =
    let there = both_lem i val v d e sh lt known p free in
    let end = marked_lem (opposite p) i val sh in
    (
      ap (λ r. bit (load (status (opposite p)) r.shm) (16 + i)) there ∙ end.0,
      ap (λ r. load (message (opposite p) i) r.shm) there ∙ end.1,
      ap (λ r. bit (load (status (opposite p)) r.shm) (16 + i))
            (interleave-append (two ∷ to_status) (two ∷ rest) (answering i val v d e sh lt known p)
              ∙ ap (interleave (two ∷ rest)) there)
          ∙ after-IsFree i val v d e sh lt known p rest free,
    )
