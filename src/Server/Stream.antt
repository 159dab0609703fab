-- ===== src/Server/Stream.antt =====
-- The server's messages as bytes: chunks do not matter, and the set-up ends with the memory there.
-- About qemu_src/hw/misc/idt_ntb_ivshmem.c, lines 1328 to 1451.
use ntb_cxl.Prelude.{
  ℕ, zero, suc, ◌+◌, ◌/◌, ◌%◌, ◌^◌, ◌<◌, ◌≡◌, ap, arith, true, false, Option, none, some, List, [],
  ◌∷◌, ◌++◌, length, length-append,
}
use ntb_cxl.Prelude.Int.{ℤ, pos, negsuc, is_minus_one}
use ntb_cxl.Device.{Outcome, ok, abort, fault, ◌>>=◌, Machine}
use ntb_cxl.Server.Process.{Host, Reply, process_msg, process_msg_shmem}
use ntb_cxl.Server.Receive.{
  msg_size, le_value, int64_of, set_msg_buf, ivshmem_read, Message, after_msg, recv_until_shmem,
  recv_peers,
}
use mathlib.Core.List.{append_assoc}
use native.Mathlib.Nat.{pow-suc}

-- Chunks do not matter: bytes `xs` that leave the message incomplete and then bytes `ys` have the
-- effect of both at once. `ys` may complete the message, or go beyond it, which both ways abort.
pub ivshmem_read-append :
    (host : Host) (xs ys : List ℕ) (fd fd' : Option ℕ) (m : Machine)
    → length m.dev.msg_buf + length xs < msg_size
    → (ivshmem_read host xs fd m >>= ivshmem_read host ys fd') ≡ ivshmem_read host (xs ++ ys) fd' m
unfolding ivshmem_read
ivshmem_read-append host xs ys fd fd' m short =
    ground (arith, length-append m.dev.msg_buf xs, append_assoc m.dev.msg_buf xs ys)

-- The `n` bytes of a pattern, lowest first.
abbrev pub le_bytes : ℕ → ℕ → List ℕ
le_bytes zero w = []
le_bytes (suc n) w = (w % 256) ∷ le_bytes n (w / 256)

pub le_value-le_bytes : (n w : ℕ) → w < 256 ^ n → le_value (le_bytes n w) ≡ w
unfolding le_value
le_value-le_bytes zero w h = omega arith
le_value-le_bytes (suc n) w h =
    omega (arith, le_value-le_bytes n (w / 256) (omega (arith, pow-suc 256 n)))

-- A message arrives as it was sent: the eight little-endian bytes of any 64-bit pattern, after a
-- whole message, are handed to `process_msg` as the signed number with that pattern, and the buffer
-- is empty again.
pub ivshmem_read-le_bytes :
    (host : Host) (w : ℕ) (fd : Option ℕ) (m : Machine)
    → w < 2 ^ 64
    → m.dev.msg_buf ≡ []
    → ivshmem_read host (le_bytes 8 w) fd m
      ≡ (process_msg host (int64_of w) fd (set_msg_buf [] m) >>= λ r. ok r.machine)
unfolding ivshmem_read
ivshmem_read-le_bytes host w fd m small empty = rw empty (
    ap (λ v. process_msg host (int64_of v) fd (set_msg_buf [] m) >>= λ r. ok r.machine)
      (le_value-le_bytes 8 w small))

shmem-has_bar2 :
    (host : Host) (msg : ℤ) (fd : Option ℕ) (m : Machine) {r : Reply}
    → process_msg host msg fd m ≡ ok r
    → is_minus_one msg ≡ true
    → r.failed ≡ false
    → r.machine.dev.has_bar2 ≡ true
unfolding process_msg process_msg_shmem
shmem-has_bar2 host (pos n) fd m e minus good = cc
shmem-has_bar2 host (negsuc zero) none m e minus good = ground arith
shmem-has_bar2 host (negsuc zero) (some n) m e minus good = ground arith
shmem-has_bar2 host (negsuc (suc n)) fd m e minus good = cc

after-has_bar2 :
    (again : Machine → Option (Outcome Reply)) (msg : ℤ) (o : Outcome Reply) {r : Reply}
    → ((n : Machine) → again n ≡ some (ok r) → r.machine.dev.has_bar2 ≡ true)
    → (o ≡ ok r → is_minus_one msg ≡ true → r.machine.dev.has_bar2 ≡ true)
    → r.failed ≡ false
    → after_msg again msg o ≡ some (ok r)
    → r.machine.dev.has_bar2 ≡ true
unfolding after_msg
after-has_bar2 again msg abort later now good e = cc
after-has_bar2 again msg fault later now good e = cc
after-has_bar2 again msg (ok q) later now good e = ground (arith, later q.machine)

loop-has_bar2 :
    (host : Host) (messages : List Message) (m : Machine) {r : Reply}
    → r.failed ≡ false
    → recv_until_shmem host messages m ≡ some (ok r)
    → r.machine.dev.has_bar2 ≡ true
unfolding recv_until_shmem
loop-has_bar2 host [] m good e = cc
loop-has_bar2 host (none ∷ rest) m good e = ground arith
loop-has_bar2 host (some (msg, fd) ∷ rest) m good e =
    after-has_bar2 (recv_until_shmem host rest) msg (process_msg host msg fd m)
      (λ n. loop-has_bar2 host rest n good) (λ p minus. shmem-has_bar2 host msg fd m p minus good)
      good e

-- The final assertion of `ivshmem_recv_setup` never fails: where its loop returns at all, it returns
-- an error or the shared memory is there, so the function's result is the loop's.
pub recv_peers-asserts :
    (host : Host) (messages : List Message) (n : ℕ) (m : Machine) (r : Reply)
    → recv_until_shmem host messages (record m { dev = record (m.dev) { vm_id = n } }) ≡ some (ok r)
    → recv_peers host messages n m ≡ some (ok r)
unfolding recv_peers
recv_peers-asserts host messages n m r e =
    ground
      (arith, loop-has_bar2 host messages (record m { dev = record (m.dev) { vm_id = n } }) {r = r})
