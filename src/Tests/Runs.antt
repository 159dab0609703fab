-- ===== src/Tests/Runs.antt =====
-- Runs of both devices together, and of longer pieces of one.
use ntb_cxl.Prelude.{◌≡◌, refl, arith, inl, true, false, none, some, [], ◌∷◌, List}
use ntb_cxl.Prelude.Int.{pos, minus_one}
use ntb_cxl.Prelude.Bits.{bit}
use ntb_cxl.Device.{
  Returns, at_vm1, at_vm2, wiring_of, ShmStorage, Side, IvShmemState, vm_at, outmsg, outdbellset,
}
use ntb_cxl.Dispatch.{address}
use ntb_cxl.System.{System, Action, write, deliver, run, All, IsAllowed}
use ntb_cxl.System.Widths.{IsSized, IsSizedRegs, IsSizedVm, IsSizedBar}
use ntb_cxl.System.Pairing.{IsReady, IsPaired}
use ntb_cxl.System.Run.{run-IsPaired}
use ntb_cxl.System.Start.{IsUp, start, run-exchange}
use ntb_cxl.System.Post.{Reads, outmsg-Reads}
use ntb_cxl.Window.{MapCalls, bar_write}
use ntb_cxl.Window.Bytes.{byte_memory, ByteMemory}
use ntb_cxl.Window.Setup.{open_window, bridge_to, bar_write-open_window}
use ntb_cxl.Server.{Host, process_msg, int64_of}
use ntb_cxl.Server.Table.{IsTable}
use ntb_cxl.Server.Answer.{process_msg-IsTable}
use ntb_cxl.Server.Chunks.{got, interrupted, recv_msg, whole, recv_msg-le_bytes}
use ntb_cxl.Tests.Data.{no_registers, quiet_vm, storage, dev_a, dev_b, on_storage, window}

abbrev shared : ShmStorage
shared = record storage { vm2 = record quiet_vm { id = 1 } }

abbrev pair : System
pair = record { dev1 = dev_a; dev2 = dev_b; shm = shared }

no_registers-IsSizedRegs : IsSizedRegs no_registers
no_registers-IsSizedRegs = record {
  db = omega arith;
  db_mask = omega arith;
  part = omega arith;
  ntctl = omega arith;
  msgsts = omega arith;
  msgsts_mask = omega arith;
  intsts = omega arith;
  msg = λ i. omega arith;
  control = λ i. omega arith;
  source = λ i. omega arith;
}

window-IsSizedBar : IsSizedBar window
window-IsSizedBar = record {
  setup = omega arith;
  limit = omega arith;
  ltbase = omega arith;
  utbase = omega arith;
}

shared-IsSized : IsSized shared
shared-IsSized = record {
  globals = record {
    segsigsts = omega arith;
    segsigmsk = omega arith;
    nt_int_mask = omega arith;
    ntmtbl0 = omega arith;
  };
  vm = machine;
}
  where
    machine : (p : Side) → IsSizedVm (vm_at p shared)
    machine at_vm1 = record { regs = no_registers-IsSizedRegs; bars = λ i. window-IsSizedBar }
    machine at_vm2 = record { regs = no_registers-IsSizedRegs; bars = λ i. window-IsSizedBar }

dev_a-IsReady : IsReady at_vm1 dev_a shared
dev_a-IsReady = record {
  wired = refl;
  own_id = refl;
  small = omega arith;
  peer_small = omega arith;
  other = refl;
  eventfd = refl;
  own_eventfds = refl;
  own_id_eventfd = refl;
  window = omega arith;
}

dev_b-IsReady : IsReady at_vm2 dev_b shared
dev_b-IsReady = record {
  wired = refl;
  own_id = refl;
  small = omega arith;
  peer_small = omega arith;
  other = refl;
  eventfd = refl;
  own_eventfds = refl;
  own_id_eventfd = refl;
  window = omega arith;
}

pair-IsPaired : IsPaired pair
pair-IsPaired = record { first = dev_a-IsReady; second = dev_b-IsReady; sized = shared-IsSized }

-- The second machine rings, and answers with a message of its own, before it looks at the first's.
abbrev later : List Action
later =
    deliver at_vm2 true 0
    ∷ write at_vm2 (address outdbellset) 5
    ∷ write at_vm2 (address (outmsg 1)) 0xBEEF
    ∷ []

later-All : All IsAllowed (write at_vm1 (address (outmsg 1)) 0xCAFE ∷ later)
later-All = (write_allowed, (omega arith, (ring_allowed, (answer_allowed, tt))))
  where
    write_allowed : IsAllowed (write at_vm1 (address (outmsg 1)) 0xCAFE)
    write_allowed = (omega arith, (λ e. absurd (omega arith)), (λ e. absurd (omega arith)))

    ring_allowed : IsAllowed (write at_vm2 (address outdbellset) 5)
    ring_allowed = (omega arith, (λ e. absurd (omega arith)), (λ e. absurd (omega arith)))

    answer_allowed : IsAllowed (write at_vm2 (address (outmsg 1)) 0xBEEF)
    answer_allowed = (omega arith, (λ e. absurd (omega arith)), (λ e. absurd (omega arith)))

run-IsPaired_example :
    Returns (run (write at_vm1 (address (outmsg 1)) 0xCAFE ∷ later) pair) IsPaired
run-IsPaired_example =
    run-IsPaired (write at_vm1 (address (outmsg 1)) 0xCAFE ∷ later) pair later-All pair-IsPaired

-- The devices before they know each other.
abbrev new_a : IvShmemState
new_a = record dev_a { other_vm_id = minus_one }

abbrev new_b : IvShmemState
new_b = record dev_b { other_vm_id = minus_one }

new_a-IsUp : IsUp at_vm1 new_a 1
new_a-IsUp = record {
  wired = refl;
  small = omega arith;
  peer_id_eventfd = refl;
  peer_eventfd = refl;
  own_id_eventfd = refl;
  own_eventfds = refl;
  window = omega arith;
}

new_b-IsUp : IsUp at_vm2 new_b 0
new_b-IsUp = record {
  wired = refl;
  small = omega arith;
  peer_id_eventfd = refl;
  peer_eventfd = refl;
  own_id_eventfd = refl;
  own_eventfds = refl;
  window = omega arith;
}

run-exchange_example :
    Returns (start (write at_vm1 (address (outmsg 1)) 0xCAFE ∷ later) new_a new_b shared) IsPaired
run-exchange_example =
    run-exchange (write at_vm1 (address (outmsg 1)) 0xCAFE ∷ later) new_a new_b shared refl
      (λ e. absurd (omega arith)) new_a-IsUp new_b-IsUp shared-IsSized later-All

outmsg-Reads_example :
    Returns (run (write at_vm1 (address (outmsg 1)) 0xCAFE ∷ later) pair) (Reads at_vm2 1 0xCAFE 0)
unfolding bit
outmsg-Reads_example =
    outmsg-Reads at_vm1 1 0xCAFE later pair (omega arith) pair-IsPaired refl later-All
      (tt, ((λ p a. refl), ((λ p a. refl), tt)))

abbrev memory : ByteMemory
memory = record { length = 0x80; byte = λ _. 0 }

abbrev os : MapCalls
os = record { open_ok = λ _. true; fstat_ok = true; mmap_ok = true }

bar_write-open_window_example :
    Returns (open_window (wiring_of at_vm1) 0 2 0x20 0 0x10FF (on_storage shared)) λ m'.
      Returns
        (bar_write byte_memory os
          (wiring_of at_vm2)
          2
          8
          0xCAFE
          4
          (bridge_to byte_memory dev_b memory m'))
        λ b. b.mem ≡ byte_memory.store 4 0x28 0xCAFE memory
bar_write-open_window_example =
    bar_write-open_window byte_memory os at_vm1 0 2 0x20 0 0x10FF 8 0xCAFE 4 (on_storage shared)
      dev_b memory (omega arith) (omega arith) (omega arith) (inl refl) refl (omega arith)
      (omega arith)

abbrev host : Host
host = record {
  irqfd_enabled = false;
  msix_enabled = false;
  msix_is_masked = λ _. false;
  add_route = λ _. none;
  fstat_ok = true;
  ram_ok = true;
}

dev_a-IsTable : IsTable dev_a
dev_a-IsTable = record { entries = omega arith; peer = λ i lt. (omega arith, λ e. ground arith) }

-- Peer 20 is new, so that the table grows.
process_msg-IsTable_example :
    Returns (process_msg host (pos 20) (some 9) (on_storage storage)) (λ r. IsTable r.machine.dev)
process_msg-IsTable_example =
    process_msg-IsTable host (pos 20) (some 9) (on_storage storage)
      (omega arith, λ lt. absurd (omega arith)) dev_a-IsTable

recv_msg-le_bytes_example :
    recv_msg (got (0x2A ∷ 0 ∷ 0 ∷ []) ∷ interrupted ∷ got (0 ∷ 0 ∷ 0 ∷ 0 ∷ 0 ∷ []) ∷ []) []
    ≡ whole (int64_of 42)
recv_msg-le_bytes_example =
    recv_msg-le_bytes (got (0x2A ∷ 0 ∷ 0 ∷ []) ∷ interrupted ∷ got (0 ∷ 0 ∷ 0 ∷ 0 ∷ 0 ∷ []) ∷ []) 42
      tt refl (omega arith)
