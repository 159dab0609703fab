-- ===== src/Window/Defs.antt =====
-- The handlers of BAR 2 to BAR 5. About qemu_src/hw/misc/idt_ntb_ivshmem.c, lines 837 to 948.
use ntb_cxl.Prelude.{
  ℕ, ◌+◌, ◌*◌, ◌^◌, ◌%◌, Bool, true, ◌&&◌, ◌||◌, leb, ltb, ◌==◌, if◌then◌else◌, u32,
}
use ntb_cxl.Device.{Outcome, ok, abort, fault, BarConfig, Wiring, Machine, vm_at, emit, Effect}
use ntb_cxl.Window.Memory.{HostMemory}

pub data ShmFile : Type 0 where
  dev_shm_qemu1 dev_shm_qemu2 : ShmFile

-- The system calls of `map_peer_shm`: `open` by file, then `fstat` and `mmap`, true for success.
pub record MapCalls : Type 0 where
  pub open_ok : ShmFile → Bool
  pub fstat_ok : Bool
  pub mmap_ok : Bool

-- `map_peer_shm`: whether it returns a mapping.
unfoldable pub map_peer_shm : MapCalls → ℕ → Bool
map_peer_shm os self_number =
    os.open_ok (if self_number == 0 then dev_shm_qemu2 else dev_shm_qemu1)
    && os.fstat_ok
    && os.mmap_ok

-- The address in the peer's memory: `((uint64_t)c.utbase << 32) + c.ltbase + addr`.
unfoldable pub translate : BarConfig → ℕ → ℕ
translate c addr = c.utbase * 2 ^ 32 + c.ltbase + addr

module _ (h : HostMemory) where
  open h use {Mem, size, load, store}

  -- A device with the memory of its peer.
  pub record Bridge : Type 0 where
    pub machine : Machine
    pub mem : Mem

  -- `s->bars[idx].addr + addr`, in 64 bits.
  abbrev pub bus_address : Bridge → ℕ → ℕ → ℕ
  bus_address b idx addr = (b.machine.dev.bar_addr idx + addr) % 2 ^ 64

  abbrev pub window_config : Wiring → ℕ → Bridge → BarConfig
  window_config w idx b = (vm_at w.bar_config b.machine.shm).bar_config idx

  -- The two tests that both handlers begin with.
  abbrev pub is_closed : Wiring → ℕ → ℕ → Bridge → Bool
  is_closed w idx addr b =
      (window_config w idx b).limit == 0
      || ltb (window_config w idx b).limit (bus_address b idx addr)

  abbrev pub report : Bridge → Bridge
  report b = record b { machine = emit Effect.error b.machine }

  abbrev pub remember_mapping : Bridge → Bridge
  remember_mapping b = record b {
    machine = record (b.machine) { dev = record (b.machine.dev) { peer_mapped = true } };
  }

  -- An access inside the mapping; outside it is undefined.
  abbrev pub is_inside : ℕ → ℕ → Mem → Bool
  is_inside n a m = leb (a + n) (size m)

  abbrev pub is_access_size : ℕ → Bool
  is_access_size n = n == 4 || n == 8

  unfoldable pub read_mapped : Wiring → ℕ → ℕ → ℕ → Bridge → Outcome (ℕ × Bridge)
  unfolding translate
  read_mapped w idx addr n b =
      let a = translate (window_config w idx b) addr in
      if is_access_size n
      then if is_inside n a b.mem then ok (load n a b.mem, b) else fault
      else abort

  -- `idt_bar_read`.
  unfoldable pub bar_read : MapCalls → Wiring → ℕ → ℕ → ℕ → Bridge → Outcome (ℕ × Bridge)
  unfolding map_peer_shm read_mapped
  bar_read os w idx addr n b =
      if is_closed w idx addr b
      then ok (0, report b)
      else if b.machine.dev.peer_mapped
      then read_mapped w idx addr n b
      else if map_peer_shm os b.machine.dev.self_number
      then read_mapped w idx addr n (remember_mapping b)
      else ok (0, report b)

  -- A 4-byte access stores `(uint32_t)value`.
  unfoldable pub write_mapped : Wiring → ℕ → ℕ → ℕ → ℕ → Bridge → Outcome Bridge
  unfolding translate
  write_mapped w idx addr value n b =
      let a = translate (window_config w idx b) addr in
      if is_access_size n
      then if is_inside n a b.mem
        then ok (record b { mem = store n a (if n == 4 then u32 value else value) b.mem })
        else fault
      else abort

  -- `idt_bar_write`.
  unfoldable pub bar_write : MapCalls → Wiring → ℕ → ℕ → ℕ → ℕ → Bridge → Outcome Bridge
  unfolding map_peer_shm write_mapped
  bar_write os w idx addr value n b =
      if is_closed w idx addr b
      then ok (report b)
      else if b.machine.dev.peer_mapped
      then write_mapped w idx addr value n b
      else if map_peer_shm os b.machine.dev.self_number
      then write_mapped w idx addr value n (remember_mapping b)
      else ok (report b)
