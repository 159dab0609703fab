-- ===== src/System/Mail.antt =====
-- Messages along a run of the two devices.
-- About qemu_src/hw/misc/idt_ntb_ivshmem.c, lines 421 to 463 and 598 to 727.
use ntb_cxl.Prelude.{
  ℕ, ◌+◌, ◌^◌, ◌<◌, ◌≡◌, refl, sym, ap, ◌∙◌, subst, arith, u32, Bool, some, List, [], ◌∷◌,
}
use ntb_cxl.Prelude.Bits.{bit}
use ntb_cxl.Prelude.Masks.{clear_bits}
use ntb_cxl.Device.{
  WhenOk, Returns, Returns-bind, Returns-WhenOk, WhenOk-bind, Side, at_vm1, at_vm2, wiring_of,
  Machine, regs_at, BarField, limit, ltbase, utbase, ConfigRegister, gasadata, ntmtbldata,
  ntgsignal, outmsg, outdbellset, msgsts, bar, oof_ldata, oof_hdata, oof_llimit, oof_hlimit,
  register_at, global_registers,
}
use ntb_cxl.Dispatch.{address, IsRegister, io_write-cases}
use ntb_cxl.Interrupt.{vector_notify}
use ntb_cxl.Mmio.{io_write, write_register, write_gasadata}
use ntb_cxl.System.{
  System, Action, write, deliver, dev_at, view, commit, write_through, perform, run, IsAllowed, All,
}
use ntb_cxl.System.Pairing.{IsPaired}
use ntb_cxl.System.Run.{perform-IsPaired}
use ntb_cxl.System.Kept.{
  IsKept, IsKeptAt, doorbell-IsKept, signal-IsKept, bar-IsKept, gas_write-IsKept, mtb-IsKept,
  outmsg-IsKept,
}

same-IsKept : (q : Side) (j : ℕ) (m : Machine) → IsKeptAt q j m m
same-IsKept q j m full = (full, refl, refl)

-- The own MSGSTS: bits that the value does not have are kept.
msgsts-IsKept :
    (p q : Side) (j val : ℕ) (m : Machine)
    → j < 4
    → val < 2 ^ 64
    → (p ≡ q → bit val (16 + j) ≡ 0)
    → WhenOk (write_register msgsts (wiring_of p) val m) (IsKeptAt q j m)
unfolding write_register
msgsts-IsKept at_vm1 at_vm1 j val m lt small spared =
    ground (arith, spared refl, clear_bits m.shm.vm1.regs.msgsts val (16 + j))
msgsts-IsKept at_vm1 at_vm2 j val m lt small spared = ground arith
msgsts-IsKept at_vm2 at_vm1 j val m lt small spared = ground arith
msgsts-IsKept at_vm2 at_vm2 j val m lt small spared =
    ground (arith, spared refl, clear_bits m.shm.vm2.regs.msgsts val (16 + j))

own_bar-IsKept :
    (p q : Side) (j val : ℕ) (m : Machine) (f : BarField) (i : ℕ)
    → WhenOk (write_register (bar f i) (wiring_of p) val m) (IsKeptAt q j m)
unfolding write_register
own_bar-IsKept at_vm1 at_vm1 j val m f i = ground arith
own_bar-IsKept at_vm1 at_vm2 j val m f i = ground arith
own_bar-IsKept at_vm2 at_vm1 j val m f i = ground arith
own_bar-IsKept at_vm2 at_vm2 j val m f i = ground arith

write_register-IsKept :
    (p q : Side) (r : ConfigRegister) (j val : ℕ) (m : Machine)
    → IsRegister r
    → j < 4
    → val < 2 ^ 64
    → (p ≡ q → r ≡ msgsts → bit val (16 + j) ≡ 0)
    → WhenOk (write_register r (wiring_of p) val m) (IsKeptAt q j m)
unfolding write_register write_gasadata
write_register-IsKept p q (outmsg i) j val m is lt small spared = outmsg-IsKept j val m p q i is
write_register-IsKept p q outdbellset j val m is lt small spared = doorbell-IsKept j val m p q
write_register-IsKept p q ntgsignal j val m is lt small spared = signal-IsKept j val m p q
write_register-IsKept p q oof_ldata j val m is lt small spared = bar-IsKept j val m p q ltbase
write_register-IsKept p q oof_hdata j val m is lt small spared = bar-IsKept j val m p q utbase
write_register-IsKept p q oof_llimit j val m is lt small spared = bar-IsKept j val m p q limit
write_register-IsKept p q oof_hlimit j val m is lt small spared = bar-IsKept j val m p q limit
write_register-IsKept p q ntmtbldata j val m is lt small spared = mtb-IsKept j val m q (u32 val)
write_register-IsKept p q (bar f i) j val m is lt small spared = own_bar-IsKept p q j val m f i
write_register-IsKept p q gasadata j val m is lt small spared =
    gas_write-IsKept j val m p q (register_at global_registers m.dev.lregs.gasaaddr)
write_register-IsKept p q msgsts j val m is lt small spared =
    msgsts-IsKept p q j val m lt small (λ e. spared e refl)
write_register-IsKept at_vm1 at_vm1 _ j val m is lt small spared = ground arith
write_register-IsKept at_vm1 at_vm2 _ j val m is lt small spared = ground arith
write_register-IsKept at_vm2 at_vm1 _ j val m is lt small spared = ground arith
write_register-IsKept at_vm2 at_vm2 _ j val m is lt small spared = ground arith

io_write-IsKept :
    (p q : Side) (addr val j : ℕ) (m : Machine)
    → j < 4
    → val < 2 ^ 64
    → (p ≡ q → addr ≡ address msgsts → bit val (16 + j) ≡ 0)
    → WhenOk (io_write (wiring_of p) addr val m) (IsKeptAt q j m)
io_write-IsKept p q addr val j m lt small spared =
    io_write-cases (λ o. WhenOk o (IsKeptAt q j m)) (wiring_of p) addr val m (same-IsKept q j m)
      (λ r is at.
        write_register-IsKept p q r j val m is lt small (λ e same. spared e (at ∙ ap address same)))

-- The action does not acknowledge place `j` of machine `q`.
abbrev pub Spares : Side → ℕ → Action → Type 0
Spares q j (write p addr val) = p ≡ q → addr ≡ address msgsts → bit val (16 + j) ≡ 0
Spares q j (deliver p fired vector) = Unit

-- The message in place `j` of machine `q`, with its source.
abbrev pub Holds : Side → ℕ → ℕ → ℕ → System → Type 0
Holds q j val source s =
    (bit (regs_at q s.shm).msgsts (16 + j) ≡ 1)
    × ((regs_at q s.shm).msg j ≡ val)
    × ((regs_at q s.shm).inb_msg_src j ≡ source)

pub carried :
    (p q : Side) (j val source : ℕ) (s : System) (m : Machine)
    → Holds q j val source s
    → IsKeptAt q j (view p s) m
    → Holds q j val source (commit p s m)
carried at_vm1 q j val source s m k kept =
    let (full, same, from) = kept k.0 in (full, same ∙ k.1, from ∙ k.2)
carried at_vm2 q j val source s m k kept =
    let (full, same, from) = kept k.0 in (full, same ∙ k.1, from ∙ k.2)

pub wired : (p : Side) (s : System) → IsPaired s → (dev_at p s).wiring ≡ some (wiring_of p)
wired at_vm1 s h = h.first.wired
wired at_vm2 s h = h.second.wired

vector_notify-shm :
    (fired : Bool) (vector : ℕ) (m : Machine)
    → WhenOk (vector_notify fired vector m) (λ m'. m'.shm ≡ m.shm)
unfolding vector_notify
vector_notify-shm fired vector m = ground arith

perform-Holds :
    (q : Side) (j val source : ℕ) (a : Action) (s : System)
    → j < 4
    → IsAllowed a
    → Spares q j a
    → IsPaired s
    → Holds q j val source s
    → WhenOk (perform a s) (Holds q j val source)
unfolding perform
perform-Holds q j val source (write p addr v) s lt allowed spared h k =
    subst (λ o. WhenOk (write_through o p addr v s) (Holds q j val source)) (sym (wired p s h))
      (WhenOk-bind (IsKeptAt q j (view p s)) (Holds q j val source)
        (io_write (wiring_of p) addr v (view p s)) _
        (io_write-IsKept p q addr v j (view p s) lt (omega arith) spared)
        (λ m kept. carried p q j val source s m k kept))
perform-Holds q j val source (deliver p fired vector) s lt allowed spared h k =
    WhenOk-bind (λ m. m.shm ≡ s.shm) (Holds q j val source) (vector_notify fired vector (view p s))
      _ (vector_notify-shm fired vector (view p s))
      (λ m same. carried p q j val source s m k (
        subst (λ sh. IsKept j (regs_at q s.shm) (regs_at q sh)) (sym same)
          (λ full. (full, refl, refl))))

pub run-Holds :
    (q : Side) (j val source : ℕ) (actions : List Action) (s : System)
    → j < 4
    → All IsAllowed actions
    → All (Spares q j) actions
    → IsPaired s
    → Holds q j val source s
    → Returns (run actions s) (Holds q j val source)
unfolding run
run-Holds q j val source [] s lt allowed spared h k = k
run-Holds q j val source (a ∷ actions) s lt allowed spared h k =
    Returns-bind (λ s'. IsPaired s' × Holds q j val source s') (Holds q j val source) (perform a s)
      (run actions)
      (Returns-WhenOk _ _ _ (perform-IsPaired a s allowed.0 h)
        (perform-Holds q j val source a s lt allowed.0 spared.0 h k))
      (λ s' both. run-Holds q j val source actions s' lt allowed.1 spared.1 both.0 both.1)
