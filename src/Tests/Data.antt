-- ===== src/Tests/Data.antt =====
-- Two connected devices and the memory between them.
use ntb_cxl.Prelude.{true, some, none, []}
use ntb_cxl.Prelude.Int.{pos, minus_one}
use ntb_cxl.Device.{
  BarConfig, SharedRegisters, VmShmStorage, ShmStorage, OnOffAuto, IvShmemState, Machine, wiring_of,
  at_vm1, at_vm2,
}

abbrev pub no_registers : SharedRegisters
no_registers = record {
  db = 0;
  db_mask = 0;
  inbound_mw_part = 0;
  ntctl = 0;
  msgsts = 0;
  msgsts_mask = 0;
  msg = λ _. 0;
  intsts = 0;
  part0_msg_control = λ _. 0;
  inb_msg_src = λ _. 0;
}

-- Each window lies at the bus address 0x1000 of its guest, is 0x100 bytes long and shows the other
-- machine's memory from 0x40 on.
abbrev pub window : BarConfig
window = record { setup = 0x80000140; limit = 0x1100; ltbase = 0x40; utbase = 0 }

abbrev pub quiet_vm : VmShmStorage
quiet_vm = record { id = 0; regs = no_registers; bar_config = λ _. window }

abbrev pub storage : ShmStorage
storage = record {
  gregs = record { segsigsts = 0; segsigmsk = 0; nt_int_mask = 0; ntmtbl0 = 0 };
  vm1 = quiet_vm;
  vm2 = quiet_vm;
}

-- The first message register of the second machine is full.
abbrev pub busy_storage : ShmStorage
busy_storage = record storage {
  vm2 = record quiet_vm { regs = record no_registers { msgsts = 0x10000 } };
}

abbrev pub masked_storage : ShmStorage
masked_storage = record storage {
  gregs = record { segsigsts = 0; segsigmsk = 0; nt_int_mask = 0xBB; ntmtbl0 = 0 };
}

abbrev pub dev_a : IvShmemState
dev_a = record {
  features = 3;
  has_bar2 = true;
  bar_addr = λ _. 0x1000;
  peers = λ _. record { nb_eventfds = 1; eventfds = some (λ _. 7) };
  nb_peers = 16;
  vectors = 2;
  msi_vectors = none;
  msg_buf = [];
  master = OnOffAuto.off;
  self_number = 0;
  vm_id = 0;
  other_vm_id = pos 1;
  wiring = some (wiring_of at_vm1);
  lregs = record { gasaaddr = 0x5480; nt_mtb_addr = 0; inbound_mw_bar = 2 };
  peer_mapped = true;
}

abbrev pub dev_b : IvShmemState
dev_b = record dev_a {
  self_number = 1;
  vm_id = 1;
  other_vm_id = pos 0;
  wiring = some (wiring_of at_vm2);
}

abbrev pub on_storage : ShmStorage → Machine
on_storage sh = record { dev = dev_a; shm = sh; effects = [] }

-- The first device before it knows the second.
abbrev pub alone : Machine
alone = record { dev = record dev_a { other_vm_id = minus_one }; shm = storage; effects = [] }
