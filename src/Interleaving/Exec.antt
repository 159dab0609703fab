-- ===== src/Interleaving/Exec.antt =====
-- Without interruption, a program of accesses is the handler.
-- About qemu_src/hw/misc/idt_ntb_ivshmem.c, lines 421 to 463 and 598 to 727.
use ntb_cxl.Prelude.{ℕ, ◌≡◌, refl, sym, ◌∙◌, arith}
use ntb_cxl.Device.{Machine, Side, at_vm1, at_vm2, wiring_of}
use ntb_cxl.Dispatch.{address, IsRegister, io_write-address}
use ntb_cxl.Mmio.{io_write, write_register, write_outbound_msg, ring_doorbell, signal_global}
use ntb_cxl.Interleaving.{
  Handler, send, ring, signal, program, register_of, value_of, exec, send_program, ring_program,
  signal_program,
}

exec-send :
    (p : Side) (i val : ℕ) (m : Machine)
    → exec (send_program (wiring_of p) m.dev i val) m ≡ write_outbound_msg (wiring_of p) i val m
unfolding exec send_program write_outbound_msg
exec-send at_vm1 i val m = ground arith
exec-send at_vm2 i val m = ground arith

exec-ring :
    (p : Side) (val : ℕ) (m : Machine)
    → exec (ring_program (wiring_of p) m.dev val) m ≡ ring_doorbell (wiring_of p) val m
unfolding exec ring_program ring_doorbell
exec-ring at_vm1 val m = ground arith
exec-ring at_vm2 val m = ground arith

exec-signal :
    (p : Side) (val : ℕ) (m : Machine)
    → exec (signal_program (wiring_of p) m.dev val) m ≡ signal_global (wiring_of p) val m
unfolding exec signal_program signal_global
exec-signal at_vm1 val m = ground arith
exec-signal at_vm2 val m = ground arith

exec-program :
    (p : Side) (h : Handler) (m : Machine)
    → exec (program h (wiring_of p) m.dev) m
      ≡ write_register (register_of h) (wiring_of p) (value_of h) m
unfolding exec program write_register
exec-program p (send i val) m = exec-send p i val m
exec-program p (ring val) m = exec-ring p val m
exec-program p (signal val) m = exec-signal p val m
exec-program p _ m = refl

-- The accesses that the interleavings below cut into are those of the handler: run without
-- interruption, the program of a handler is the write to its register, on both machines, with the
-- same shared memory, the same effects in the same order, and the same failures.
exec-io_write :
    (p : Side) (h : Handler) (m : Machine)
    → IsRegister (register_of h)
    → exec (program h (wiring_of p) m.dev) m
      ≡ io_write (wiring_of p) (address (register_of h)) (value_of h) m
exec-io_write p h m is =
    exec-program p h m ∙ sym (io_write-address (register_of h) (wiring_of p) (value_of h) m is)
