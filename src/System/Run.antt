-- ===== src/System/Run.antt =====
-- Runs of the two devices: the invariant holds along every one.
-- About qemu_src/hw/misc/idt_ntb_ivshmem.c, lines 598 to 727 and 989 to 1016.
use ntb_cxl.Prelude.{ℕ, ◌<◌, sym, subst, Bool, List, [], ◌∷◌}
use ntb_cxl.Device.{Returns, Returns-bind, Side, at_vm1, at_vm2}
use ntb_cxl.Interrupt.{vector_notify}
use ntb_cxl.System.{System, Action, write, deliver, view, perform, run, IsAllowed, All}
use ntb_cxl.System.Widths.{IsSized}
use ntb_cxl.System.Pairing.{IsReady, IsPaired, write-IsPaired, event-IsReady}

deliver-IsPaired :
    (p : Side) (fired : Bool) (vector : ℕ) (s : System)
    → IsPaired s
    → vector < 2
    → Returns (perform (deliver p fired vector) s) IsPaired
unfolding perform
deliver-IsPaired at_vm1 fired vector s h lt =
    Returns-bind _ IsPaired (vector_notify fired vector (view at_vm1 s)) _
      (event-IsReady at_vm1 fired vector (view at_vm1 s) lt h.first)
      (λ m' k. record {
        first = k.1;
        second = subst (IsReady at_vm2 s.dev2) (sym k.0) h.second;
        sized = subst IsSized (sym k.0) h.sized;
      })
deliver-IsPaired at_vm2 fired vector s h lt =
    Returns-bind _ IsPaired (vector_notify fired vector (view at_vm2 s)) _
      (event-IsReady at_vm2 fired vector (view at_vm2 s) lt h.second)
      (λ m' k. record {
        first = subst (IsReady at_vm1 s.dev1) (sym k.0) h.first;
        second = k.1;
        sized = subst IsSized (sym k.0) h.sized;
      })

pub perform-IsPaired :
    (a : Action) (s : System) → IsAllowed a → IsPaired s → Returns (perform a s) IsPaired
perform-IsPaired (write p addr val) s allowed h = write-IsPaired p addr val s h allowed
perform-IsPaired (deliver p fired vector) s allowed h = deliver-IsPaired p fired vector s h allowed

-- Two connected devices keep running: along every interleaving, of any length, of writes of both
-- guests, to any address of BAR 0, and of deliveries of events, no handler fails an assertion or
-- accesses memory out of bounds, the devices stay connected, and every register in the shared memory
-- keeps to the width of its C type. The guests keep to what the devices take for granted (`IsAllowed`).
pub run-IsPaired :
    (actions : List Action) (s : System)
    → All IsAllowed actions
    → IsPaired s
    → Returns (run actions s) IsPaired
unfolding run
run-IsPaired [] s allowed h = h
run-IsPaired (a ∷ actions) s allowed h =
    Returns-bind IsPaired IsPaired (perform a s) (run actions) (perform-IsPaired a s allowed.0 h)
      (λ s' k. run-IsPaired actions s' allowed.1 k)
