-- ===== src/Tests/Peers.antt =====
-- The server's messages.
use ntb_cxl.Prelude.{◌≡◌, refl, arith, true, false, none, some, [], ◌∷◌, ◌++◌}
use ntb_cxl.Prelude.Int.{pos, minus_one}
use ntb_cxl.Device.{Returns, ok, fault, ◌>>=◌, Machine}
use ntb_cxl.Server.{
  Host, Reply, process_msg, process_msg_shmem, ivshmem_read, set_msg_buf, int64_of, recv_peers,
  recv_until_shmem,
}
use ntb_cxl.Server.Stream.{le_bytes, ivshmem_read-append, ivshmem_read-le_bytes, recv_peers-asserts}
use ntb_cxl.Server.Tracking.{
  IsConnectedTo, process_msg-IsConnectedTo, process_msg-reconnect, process_msg-early,
}
use ntb_cxl.Tests.Data.{storage, dev_a, on_storage}

abbrev m : Machine
m = on_storage storage

-- The same before the shared memory is there.
abbrev bare : Machine
bare = record m { dev = record dev_a { has_bar2 = false } }

abbrev host : Host
host = record {
  irqfd_enabled = false;
  msix_enabled = false;
  msix_is_masked = λ _. false;
  add_route = λ _. none;
  fstat_ok = true;
  ram_ok = true;
}

process_msg-IsConnectedTo_example :
    Returns (process_msg host (pos 3) (some 9) m) (IsConnectedTo 3 9 (λ _. 7) m)
process_msg-IsConnectedTo_example =
    process_msg-IsConnectedTo host 3 9 (λ _. 7) m (omega arith) (omega arith) (omega arith) refl
      (omega arith)

process_msg-reconnect_example :
    (process_msg host (pos 3) none m >>= λ r. process_msg host (pos 3) (some 9) r.machine) ≡ fault
process_msg-reconnect_example =
    process_msg-reconnect host 3 9 (λ _. 7) m (omega arith) (omega arith) (omega arith) refl
      (omega arith)

process_msg-early_example : process_msg host (pos 0) (some 9) m ≡ fault
process_msg-early_example =
    process_msg-early host 9 (λ _. 7) m refl (omega arith) (omega arith) refl (omega arith) refl

ivshmem_read-append_example :
    (ivshmem_read host (1 ∷ 2 ∷ []) none m >>= ivshmem_read host (0 ∷ 0 ∷ []) none)
    ≡ ivshmem_read host ((1 ∷ 2 ∷ []) ++ 0 ∷ 0 ∷ []) none m
ivshmem_read-append_example =
    ivshmem_read-append host (1 ∷ 2 ∷ []) (0 ∷ 0 ∷ []) none none m (omega arith)

ivshmem_read-le_bytes_example :
    ivshmem_read host (le_bytes 8 3) (some 9) m
    ≡ (process_msg host (int64_of 3) (some 9) (set_msg_buf [] m) >>= λ r. ok r.machine)
ivshmem_read-le_bytes_example = ivshmem_read-le_bytes host 3 (some 9) m (omega arith) refl

-- The reply to the message that brings the memory.
abbrev mapped : Reply
mapped = record { failed = false; machine = record m { dev = record dev_a { vm_id = 5 } } }

recv_peers-asserts_example :
    recv_peers host (some (minus_one, some 4) ∷ []) 5 bare ≡ some (ok mapped)
unfolding recv_until_shmem process_msg process_msg_shmem
recv_peers-asserts_example =
    recv_peers-asserts host (some (minus_one, some 4) ∷ []) 5 bare mapped refl
