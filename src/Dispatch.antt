-- ===== src/Dispatch.antt =====
-- The switches of `ivshmem_io_write` and `ivshmem_io_read` as a map of BAR 0: where each
-- register stands. About qemu_src/hw/misc/idt_ntb_ivshmem.c, lines 268 to 331.
use ntb_cxl.Prelude.{
  ℕ, zero, suc, ◌+◌, ◌*◌, ◌%◌, ◌<◌, ◌≡◌, refl, ap, subst, inl, inr, arith, Option, none, some, List,
  [], ◌∷◌, ◌==◌, Bool-cases,
}
use ntb_cxl.Device.{
  ConfigRegister, pcicmdsts, pcielcap, pcielctlsts, ntctl, ntintsts, ntintmsk, ntgsignal,
  outdbellset, indbellsts, indbellmsk, msgsts, msgstsmsk, ntmtbladdr, ntmtbldata, reqidcap,
  gasaaddr, gasadata, outmsg, inmsg, inmsgsrc, bar, oof_tpart, oof_lutoff, oof_ldata, oof_hdata,
  oof_llimit, oof_hlimit, BarField, setup, limit, ltbase, utbase, register_at, config_registers,
  Outcome, ok, Wiring, Machine, IvShmemState, ShmStorage, bar_count,
}
use ntb_cxl.Mmio.{write_register, write_at, io_write, read_register, read_at, io_read}

abbrev pub field_offset : BarField → ℕ
field_offset setup = 0x0
field_offset limit = 0x4
field_offset ltbase = 0x8
field_offset utbase = 0xC

-- Where a register stands, by arithmetic: message registers are a word apart, the blocks of the
-- BARs sixteen bytes.
abbrev pub address : ConfigRegister → ℕ
address pcicmdsts = 0x4
address pcielcap = 0x4C
address pcielctlsts = 0x50
address ntctl = 0x400
address ntintsts = 0x404
address ntintmsk = 0x408
address ntgsignal = 0x410
address outdbellset = 0x420
address indbellsts = 0x428
address indbellmsk = 0x42C
address msgsts = 0x460
address msgstsmsk = 0x464
address ntmtbladdr = 0x4D0
address ntmtbldata = 0x4D8
address reqidcap = 0x4DC
address gasaaddr = 0xFF8
address gasadata = 0xFFC
address (outmsg i) = 0x430 + 4 * i
address (inmsg i) = 0x440 + 4 * i
address (inmsgsrc i) = 0x450 + 4 * i
address (bar f i) = 0x470 + 16 * i + field_offset f
address oof_tpart = 0x1000
address oof_lutoff = 0x1004
address oof_ldata = 0x1008
address oof_hdata = 0x100C
address oof_llimit = 0x1010
address oof_hlimit = 0x1014

-- The registers that the device has: four of each message register, six BARs.
abbrev pub IsRegister : ConfigRegister → Type 0
IsRegister (outmsg i) = i < 4
IsRegister (inmsg i) = i < 4
IsRegister (inmsgsrc i) = i < 4
IsRegister (bar f i) = i < bar_count
IsRegister _ = Unit

abbrev All {ℓ} : {R : Type ℓ} → (ℕ → R → Type 0) → List (ℕ × R) → Type 0
All P [] = Unit
All P ((a, r) ∷ table) = P a r × All P table

register_at-All {ℓ} :
    {R : Type ℓ} (P : ℕ → R → Type 0) (table : List (ℕ × R)) (addr : ℕ) {r : R}
    → All P table
    → register_at table addr ≡ some r
    → P addr r
unfolding register_at
register_at-All P [] addr h e = cc
register_at-All {R} P ((a, s) ∷ table) addr {r} h e = elim (Bool-cases (a == addr)) [
  | inl hit ↦
      let same : some s ≡ some r = rw hit at e in
      let here : s ≡ r = cc in subst (λ t. P t r) (ground arith) (subst (P a) here h.0)
  | inr miss ↦ register_at-All P table addr h.1 (rw miss at e)
]

abbrev IsPlaced : ℕ → ConfigRegister → Type 0
IsPlaced a r = (a ≡ address r) × IsRegister r × (a % 4 ≡ 0) × (a < 0x2000)

-- Every address that either switch knows is the address of one of the device's registers, word
-- aligned and inside the 0x2000 bytes of BAR 0.
register_at-IsPlaced :
    (addr : ℕ) {r : ConfigRegister}
    → register_at config_registers addr ≡ some r
    → (addr ≡ address r) × IsRegister r × (addr % 4 ≡ 0) × (addr < 0x2000)
register_at-IsPlaced addr e =
    register_at-All IsPlaced config_registers addr (unfold config_registers in omega arith) e

register_at-bar :
    (f : BarField) (i : ℕ)
    → i < bar_count
    → register_at config_registers (address (bar f i)) ≡ some (bar f i)
unfolding register_at config_registers
register_at-bar setup zero h = refl
register_at-bar setup (suc zero) h = refl
register_at-bar setup (suc (suc zero)) h = refl
register_at-bar setup (suc (suc (suc zero))) h = refl
register_at-bar setup (suc (suc (suc (suc zero)))) h = refl
register_at-bar setup (suc (suc (suc (suc (suc zero))))) h = refl
register_at-bar f (suc (suc (suc (suc (suc (suc i)))))) h = absurd (omega arith)
register_at-bar f i h = refl

-- Conversely every register of the device is found at its address, so no two share one.
pub register_at-address :
    (r : ConfigRegister) → IsRegister r → register_at config_registers (address r) ≡ some r
unfolding register_at config_registers
register_at-address (outmsg zero) h = refl
register_at-address (outmsg (suc zero)) h = refl
register_at-address (outmsg (suc (suc zero))) h = refl
register_at-address (outmsg (suc (suc (suc zero)))) h = refl
register_at-address (inmsg zero) h = refl
register_at-address (inmsg (suc zero)) h = refl
register_at-address (inmsg (suc (suc zero))) h = refl
register_at-address (inmsg (suc (suc (suc zero)))) h = refl
register_at-address (inmsgsrc zero) h = refl
register_at-address (inmsgsrc (suc zero)) h = refl
register_at-address (inmsgsrc (suc (suc zero))) h = refl
register_at-address (inmsgsrc (suc (suc (suc zero)))) h = refl
register_at-address (outmsg (suc (suc (suc (suc i))))) h = absurd (omega arith)
register_at-address (inmsg (suc (suc (suc (suc i))))) h = absurd (omega arith)
register_at-address (inmsgsrc (suc (suc (suc (suc i))))) h = absurd (omega arith)
register_at-address (bar f i) h = register_at-bar f i h
register_at-address _ h = refl

-- The handlers at a register's address make that register's case of their switch.
pub io_write-address :
    (r : ConfigRegister) (w : Wiring) (val : ℕ) (m : Machine)
    → IsRegister r
    → io_write w (address r) val m ≡ write_register r w val m
unfolding io_write
io_write-address r w val m h = ap (λ o. write_at o w val m) (register_at-address r h)

pub io_read-address :
    (r : ConfigRegister) (w : Wiring) (requester : ℕ) (d : IvShmemState) (sh : ShmStorage)
    → IsRegister r
    → io_read w requester (address r) d sh ≡ read_register r w requester d sh
unfolding io_read
io_read-address r w requester d sh h =
    ap (λ o. read_at o w requester d sh) (register_at-address r h)

-- A statement about every write is proved for the writes to registers.
pub io_write-cases {ℓ} :
    (P : Outcome Machine → Type ℓ) (w : Wiring) (addr val : ℕ) (m : Machine)
    → P (ok m)
    → ((r : ConfigRegister) → IsRegister r → addr ≡ address r → P (write_register r w val m))
    → P (io_write w addr val m)
unfolding io_write
io_write-cases P w addr val m skip each = go (register_at config_registers addr) refl
  where
    go :
        (o : Option ConfigRegister) → register_at config_registers addr ≡ o → P (write_at o w val m)
    go none e = skip
    go (some r) e = let placed = register_at-IsPlaced addr e in each r placed.1 placed.0
