-- ===== src/System.antt =====
-- The two devices over their shared memory: the handlers of both as one system, a step being a
-- whole handler. About qemu_src/hw/misc/idt_ntb_ivshmem.c, lines 598 to 727 and 989 to 1016.
pub mod Widths
pub mod Sized
pub mod Registers
pub mod Index
pub mod Pairing
pub mod Run
pub mod Kept
pub mod Mail
pub mod Post
pub mod Start
use ntb_cxl.Prelude.{ℕ, Bool, List, [], ◌∷◌, ◌<◌, ◌^◌, ◌≡◌, none, some, Option}
use ntb_cxl.Device.{
  Outcome, ok, fault, ◌>>=◌, Side, at_vm1, at_vm2, IvShmemState, ShmStorage, Machine, Wiring,
  bar_count, ntgsignal, oof_lutoff,
}
use ntb_cxl.Dispatch.{address}
use ntb_cxl.Mmio.{io_write}
use ntb_cxl.Interrupt.{vector_notify}

pub record System : Type 0 where
  pub dev1 : IvShmemState
  pub dev2 : IvShmemState
  pub shm : ShmStorage

abbrev pub dev_at : Side → System → IvShmemState
dev_at at_vm1 s = s.dev1
dev_at at_vm2 s = s.dev2

-- What a handler of one device sees, and what the system is after it. Its effects are let go: an
-- event may be delivered at any time, whether it was raised or not.
abbrev pub view : Side → System → Machine
view p s = record { dev = dev_at p s; shm = s.shm; effects = [] }

abbrev pub commit : Side → System → Machine → System
commit at_vm1 s m = record s { dev1 = m.dev; shm = m.shm }
commit at_vm2 s m = record s { dev2 = m.dev; shm = m.shm }

-- A guest writes to BAR 0 of its device, or a device is called for the event of a vector.
pub data Action : Type 0 where
  write : (p : Side) (addr val : ℕ) → Action
  deliver : (p : Side) (fired : Bool) (vector : ℕ) → Action

-- The handlers dereference the pointers that realize has set.
unfoldable pub write_through : Option Wiring → Side → ℕ → ℕ → System → Outcome System
write_through none p addr val s = fault
write_through (some w) p addr val s = io_write w addr val (view p s) >>= λ m. ok (commit p s m)

unfoldable pub perform : Action → System → Outcome System
unfolding write_through
perform (write p addr val) s = write_through (dev_at p s).wiring p addr val s
perform (deliver p fired vector) s =
    vector_notify fired vector (view p s) >>= λ m. ok (commit p s m)

unfoldable pub run : List Action → System → Outcome System
run [] s = ok s
run (a ∷ actions) s = perform a s >>= run actions

-- What a guest keeps to: 32-bit accesses, as the device declares them, 1 for NTGSIGNAL, and the
-- index of a BAR for the window register. Events have the two vectors of the device.
abbrev pub IsAllowed : Action → Type 0
IsAllowed (write p addr val) =
    (val < 2 ^ 32)
    × (addr ≡ address ntgsignal → val ≡ 1)
    × (addr ≡ address oof_lutoff → val < bar_count)
IsAllowed (deliver p fired vector) = vector < 2

abbrev pub All {ℓ} : {A : Type ℓ} → (A → Type 0) → List A → Type 0
All P [] = Unit
All P (x ∷ xs) = P x × All P xs
