-- ===== src/Server/Receive.antt =====
-- The bytes of the server's messages. About qemu_src/hw/misc/idt_ntb_ivshmem.c, lines 1328 to 1451.
use ntb_cxl.Prelude.{
  ℕ, ◌+◌, ◌-◌, ◌*◌, ◌^◌, Bool, false, ◌||◌, Option, none, some, List, [], ◌∷◌, ◌++◌, ltb, ◌==◌,
  if◌then◌else◌, length,
}
use ntb_cxl.Prelude.Int.{ℤ, pos, negsuc, is_minus_one}
use ntb_cxl.Device.{Outcome, ok, abort, fault, ◌>>=◌, Machine}
use ntb_cxl.Server.Process.{Host, Reply, failure, process_msg, ivshmem_max_peers}

-- `sizeof(s->msg_buf)`.
abbrev pub msg_size : ℕ
msg_size = 8

-- `le64_to_cpu` of bytes, and the `int64_t` with such a pattern.
unfoldable pub le_value : List ℕ → ℕ
le_value [] = 0
le_value (b ∷ bytes) = b + 256 * le_value bytes

unfoldable pub int64_of : ℕ → ℤ
int64_of w = if ltb w (2 ^ 63) then pos w else negsuc (2 ^ 64 - w - 1)

-- `ivshmem_can_receive`: how many bytes the buffer still takes.
unfoldable pub can_receive : Machine → Outcome ℕ
can_receive m =
    if ltb (length m.dev.msg_buf) msg_size then ok (msg_size - length m.dev.msg_buf) else abort

abbrev pub set_msg_buf : List ℕ → Machine → Machine
set_msg_buf buf m = record m { dev = record (m.dev) { msg_buf = buf } }

-- `ivshmem_read`; `fd` is the descriptor that `qemu_chr_fe_get_msgfd` has with the message. An error
-- of `process_msg` is reported and dropped.
unfoldable pub ivshmem_read : Host → List ℕ → Option ℕ → Machine → Outcome Machine
ivshmem_read host buf fd m =
    let all = m.dev.msg_buf ++ buf in
    if ltb msg_size (length all)
    then abort
    else if ltb (length all) msg_size
    then ok (set_msg_buf all m)
    else process_msg host (int64_of (le_value all)) fd (set_msg_buf [] m) >>= λ r. ok r.machine

-- A whole message of `ivshmem_recv_msg`: its value and descriptor, or `none` where the read from the
-- server fails.
abbrev pub Message : Type 0
Message = Option (ℤ × Option ℕ)

-- What follows `process_msg` in the loop of `ivshmem_recv_setup`; `again` is the next round.
unfoldable pub after_msg :
    (Machine → Option (Outcome Reply)) → ℤ → Outcome Reply → Option (Outcome Reply)
after_msg again msg abort = some abort
after_msg again msg fault = some fault
after_msg again msg (ok r) =
    let next = again r.machine in if r.failed || is_minus_one msg then some (ok r) else next

-- The loop, over the messages that the server sends; `none` is a wait for one that has not come.
unfoldable pub recv_until_shmem : Host → List Message → Machine → Option (Outcome Reply)
unfolding after_msg
recv_until_shmem host [] m = none
recv_until_shmem host (none ∷ rest) m = some (failure m)
recv_until_shmem host (some (msg, fd) ∷ rest) m =
    after_msg (recv_until_shmem host rest) msg (process_msg host msg fd m)

-- The check of the version message, and of the message with the id.
is_version : ℕ → ℤ × Option ℕ → Bool
is_version version (pos v, none) = v == version
is_version version _ = false

id_of : ℤ × Option ℕ → Option ℕ
id_of (pos n, none) = if ltb ivshmem_max_peers n then none else some n
id_of _ = none

-- The rest of `ivshmem_recv_setup` once the id is there: the loop, and the assertion behind it.
unfoldable pub recv_peers : Host → List Message → ℕ → Machine → Option (Outcome Reply)
recv_peers host rest n m =
    elim (recv_until_shmem host rest (record m { dev = record (m.dev) { vm_id = n } })) [
      | none ↦ none
      | some abort ↦ some abort
      | some fault ↦ some fault
      | some (ok r) ↦ if r.failed || r.machine.dev.has_bar2 then some (ok r) else some abort
    ]

-- `ivshmem_recv_setup`. `version` is IVSHMEM_PROTOCOL_VERSION.
unfoldable pub recv_setup : Host → ℕ → List Message → Machine → Option (Outcome Reply)
unfolding is_version id_of
recv_setup host version [] m = none
recv_setup host version (none ∷ _) m = some (failure m)
recv_setup host version (some first ∷ []) m =
    if is_version version first then none else some (failure m)
recv_setup host version (some first ∷ none ∷ _) m = some (failure m)
recv_setup host version (some first ∷ some second ∷ rest) m =
    if is_version version first
    then elim (id_of second) [ none ↦ some (failure m) | some n ↦ recv_peers host rest n m ]
    else some (failure m)
