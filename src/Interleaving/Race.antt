-- ===== src/Interleaving/Race.antt =====
-- Two programs over one memory, one access of one of them at a time.
-- About qemu_src/hw/misc/idt_ntb_ivshmem.c, lines 421 to 463 and 598 to 727.
use ntb_cxl.Prelude.{ℕ, Bool, true, false, List, [], ◌∷◌, if◌then◌else◌}
use ntb_cxl.Prelude.Int.{ℤ, pos, negsuc}
use ntb_cxl.Device.{ShmStorage, Effect, IvShmemState, Wiring, has_eventfd, eventfd_interrupt_host}
use ntb_cxl.Interleaving.{
  Place, load, save, Program, done, stopped, faulted, fetch, put, raise, Handler, program, when,
  notify_program,
}

-- Whose access is next.
pub data Turn : Type 0 where
  one two : Turn

-- `raised1` and `raised2` are what each has called of QEMU, the last one first.
pub record Race : Type 0 where
  pub first : Program
  pub second : Program
  pub shm : ShmStorage
  pub raised1 : List Effect
  pub raised2 : List Effect

-- The memory after the next access of a program, what is left of it, and what it raises.
unfoldable pub memory_after : Program → ShmStorage → ShmStorage
memory_after (put a v next) sh = save a v sh
memory_after _ sh = sh

unfoldable pub rest_after : Program → ShmStorage → Program
rest_after (fetch a next) sh = next (load a sh)
rest_after (put a v next) sh = next
rest_after (raise e next) sh = next
rest_after g sh = g

unfoldable pub effects_after : Program → List Effect → List Effect
effects_after (raise e next) es = e ∷ es
effects_after _ es = es

-- A program that has ended lets its turns pass.
unfoldable pub step : Turn → Race → Race
unfolding memory_after rest_after effects_after
step one r = record {
  first = rest_after r.first r.shm;
  second = r.second;
  shm = memory_after r.first r.shm;
  raised1 = effects_after r.first r.raised1;
  raised2 = r.raised2;
}
step two r = record {
  first = r.first;
  second = rest_after r.second r.shm;
  shm = memory_after r.second r.shm;
  raised1 = r.raised1;
  raised2 = effects_after r.second r.raised2;
}

unfoldable pub interleave : List Turn → Race → Race
interleave [] r = r
interleave (t ∷ schedule) r = interleave schedule (step t r)

-- One program after another; a failure ends both.
infixr 20 ◌>>>◌
unfoldable pub ◌>>>◌ : Program → Program → Program
done >>> q = q
stopped >>> q = stopped
faulted >>> q = faulted
fetch a next >>> q = fetch a λ v. next v >>> q
put a v next >>> q = put a v (next >>> q)
raise e next >>> q = raise e (next >>> q)

-- What a guest makes its device do, one handler after the other.
unfoldable pub guest_program : List Handler → Wiring → IvShmemState → Program
guest_program [] w d = done
guest_program (h ∷ handlers) w d = program h w d >>> guest_program handlers w d

-- As long as a program finds the memory in `R`, each of its writes leaves it in `G`, seen from the
-- memory that it found.
abbrev pub Respects : (ShmStorage → Type 0) → (ShmStorage → ShmStorage → Type 0) → Program → Type 0
Respects R G done = Unit
Respects R G stopped = Unit
Respects R G faulted = Unit
Respects R G (fetch a next) = (sh : ShmStorage) → R sh → Respects R G (next (load a sh))
Respects R G (put a v next) = ((sh : ShmStorage) → R sh → G sh (save a v sh)) × Respects R G next
Respects R G (raise e next) = Respects R G next

module _ (R : ShmStorage → Type 0) (G : ShmStorage → ShmStorage → Type 0) where
  pub rest-Respects :
      (g : Program) (sh : ShmStorage) → R sh → Respects R G g → Respects R G (rest_after g sh)
  unfolding rest_after
  rest-Respects done sh h k = k
  rest-Respects stopped sh h k = k
  rest-Respects faulted sh h k = k
  rest-Respects (fetch a next) sh h k = k sh h
  rest-Respects (put a v next) sh h k = k.1
  rest-Respects (raise e next) sh h k = k

  -- A write is in `G`, and nothing else changes the memory.
  pub memory-Respects :
      (g : Program) (sh : ShmStorage) → R sh → Respects R G g → G sh sh → G sh (memory_after g sh)
  unfolding memory_after
  memory-Respects done sh h k same = same
  memory-Respects stopped sh h k same = same
  memory-Respects faulted sh h k same = same
  memory-Respects (fetch a next) sh h k same = same
  memory-Respects (put a v next) sh h k same = k.0 sh h
  memory-Respects (raise e next) sh h k same = same

  pub >>>-Respects : (g h : Program) → Respects R G g → Respects R G h → Respects R G (g >>> h)
  unfolding ◌>>>◌
  >>>-Respects done h p q = q
  >>>-Respects stopped h p q = tt
  >>>-Respects faulted h p q = tt
  >>>-Respects (fetch a next) h p q = λ sh r. >>>-Respects (next (load a sh)) h (p sh r) q
  >>>-Respects (put a v next) h p q = (p.0, >>>-Respects next h p.1 q)
  >>>-Respects (raise e next) h p q = >>>-Respects next h p q

  pub if-Respects :
      (b : Bool) (g h : Program)
      → Respects R G g
      → Respects R G h
      → Respects R G (if b then g else h)
  if-Respects true g h p q = p
  if-Respects false g h p q = q

  pub when-Respects :
      (a : Place) (test : ℕ → Bool) (next : Program)
      → Respects R G next
      → Respects R G (when a test next)
  when-Respects a test next h = λ sh r. if-Respects (test (load a sh)) next done h tt

  pub notify-Respects : (d : IvShmemState) → Respects R G (notify_program d)
  notify-Respects d = go d.other_vm_id
    where
      go :
          (z : ℤ)
          → Respects R G (elim z [
            | pos n ↦
                if has_eventfd d n eventfd_interrupt_host
                then raise (Effect.event_set n eventfd_interrupt_host) done
                else faulted
            | negsuc n ↦ faulted
          ])
      go (pos n) = if-Respects (has_eventfd d n eventfd_interrupt_host) _ _ tt tt
      go (negsuc n) = tt
