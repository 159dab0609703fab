-- ===== src/Window/Setup.antt =====
-- One machine sets up a window of the other, which then reaches its memory: IDT_OOF_LUTOFF,
-- IDT_OOF_LDATA, IDT_OOF_HDATA and IDT_OOF_LLIMIT, and `idt_bar_write` behind them.
-- About qemu_src/hw/misc/idt_ntb_ivshmem.c, lines 698 to 716 and 907 to 948.
use ntb_cxl.Prelude.{
  ℕ, ◌+◌, ◌*◌, ◌^◌, ◌%◌, ◌≤◌, ◌<◌, ◌≡◌, ◌≢◌, ◌⊎◌, refl, ap, ◌∙◌, arith, true, ◌||◌, u32, [], [],
}
use ntb_cxl.Device.{
  Outcome, ok, ◌>>=◌, Returns, Returns-map, Side, at_vm1, at_vm2, opposite, wiring_of, Wiring,
  Machine, vm_at, BarField, limit, ltbase, utbase, bar_count, ConfigRegister, oof_lutoff, oof_tpart,
  regs_at, set_regs, oof_ldata, oof_hdata, oof_llimit, IvShmemState,
}
use ntb_cxl.Dispatch.{address, IsRegister, io_write-address}
use ntb_cxl.Mmio.{io_write, write_register, write_peer_bar, write_bar}
use ntb_cxl.Window.Memory.{HostMemory}
use ntb_cxl.Window.Defs.{MapCalls, map_peer_shm, translate, Bridge, window_config, bar_write}
use ntb_cxl.Window.Access.{bar_write-IsWritten}

-- The writes with which a driver opens window `idx` of its peer at `hi * 2 ^ 32 + lo` of its memory:
-- the partition, the window, the address and the limit.
abbrev pub open_window : Wiring → ℕ → ℕ → ℕ → ℕ → ℕ → Machine → Outcome Machine
open_window w part idx lo hi lim m =
    io_write w (address oof_tpart) part m
    >>= io_write w (address oof_lutoff) idx
    >>= io_write w (address oof_ldata) lo
    >>= io_write w (address oof_hdata) hi
    >>= io_write w (address oof_llimit) lim

select : ℕ → Machine → Machine
select idx m = record m {
  dev = record (m.dev) { lregs = record (m.dev.lregs) { inbound_mw_bar = u32 idx } };
}

assign : Wiring → BarField → ℕ → Machine → Machine
assign w f v m = record m {
  shm = write_bar w.peer_bar_config f m.dev.lregs.inbound_mw_bar (u32 v) m.shm;
}

assign_lem :
    (r : ConfigRegister) (f : BarField) (w : Wiring) (v : ℕ) (m : Machine)
    → IsRegister r
    → write_register r w v m ≡ write_peer_bar w f v m
    → m.dev.lregs.inbound_mw_bar < bar_count
    → io_write w (address r) v m ≡ ok (assign w f v m)
unfolding write_peer_bar assign
assign_lem r f w v m is same lt = io_write-address r w v m is ∙ (same ∙ ground arith)

enter : Wiring → ℕ → Machine → Machine
enter w part m = record m {
  shm = set_regs w.regs (record (regs_at w.regs m.shm) { inbound_mw_part = u32 part }) m.shm;
}

opened : Wiring → ℕ → ℕ → ℕ → ℕ → ℕ → Machine → Machine
unfolding enter select assign
opened w part idx lo hi lim m =
    assign w limit lim (assign w utbase hi (assign w ltbase lo (select idx (enter w part m))))

open_window_lem :
    (w : Wiring) (part idx lo hi lim : ℕ) (m : Machine)
    → idx < bar_count
    → open_window w part idx lo hi lim m ≡ ok (opened w part idx lo hi lim m)
unfolding write_register opened
open_window_lem w part idx lo hi lim m lt =
    let m0 = enter w part m in
    let m1 = select idx m0 in
    let m2 = assign w ltbase lo m1 in
    let m3 = assign w utbase hi m2 in
    rw
      (
        io_write-address oof_tpart w part m tt,
        io_write-address oof_lutoff w idx m0 tt,
        assign_lem oof_ldata ltbase w lo m1 tt refl (omega arith),
        assign_lem oof_hdata utbase w hi m2 tt refl (omega arith),
        assign_lem oof_llimit limit w lim m3 tt refl (omega arith),
      )
      refl

-- The peer's BAR `idx` has the address and the limit, and the setup that it had.
opened-config :
    (p : Side) (part idx lo hi lim : ℕ) (m : Machine)
    → idx < bar_count
    → (vm_at (opposite p) (opened (wiring_of p) part idx lo hi lim m).shm).bar_config idx ≡ record {
      setup = ((vm_at (opposite p) m.shm).bar_config idx).setup;
      limit = u32 lim;
      ltbase = u32 lo;
      utbase = u32 hi;
    }
unfolding opened
opened-config at_vm1 part idx lo hi lim m lt = ground arith
opened-config at_vm2 part idx lo hi lim m lt = ground arith

module _ (h : HostMemory) where
  open h use {Mem, size, store}

  -- The peer's device `d`, over the shared memory of `m` and with the memory `mem` of this machine.
  abbrev pub bridge_to : IvShmemState → Mem → Machine → Bridge h
  bridge_to d mem m = record { machine = record { dev = d; shm = m.shm; effects = [] }; mem = mem }

  -- A machine lends its memory: after it has opened window `idx` of its peer at `hi * 2 ^ 32 + lo`
  -- with limit `lim`, a write of the peer's guest at offset `addr` of the window, whose bus address
  -- does not pass the limit, stores exactly the value at offset `addr` behind that address, provided
  -- that the bytes lie in the memory and that it is mapped or can be.
  pub bar_write-open_window :
      (os : MapCalls) (p : Side) (part idx lo hi lim addr value n : ℕ) (m : Machine)
      (d : IvShmemState) (mem : Mem)
      → idx < bar_count
      → (lo < 2 ^ 32) × (hi < 2 ^ 32) × (0 < lim) × (lim < 2 ^ 32)
      → (d.bar_addr idx + addr) % 2 ^ 64 ≤ lim
      → (n ≡ 4) ⊎ (n ≡ 8)
      → (d.peer_mapped || map_peer_shm os d.self_number) ≡ true
      → hi * 2 ^ 32 + lo + addr + n ≤ size mem
      → value < 256 ^ n
      → Returns (open_window (wiring_of p) part idx lo hi lim m) λ m'.
        Returns
          (bar_write h os (wiring_of (opposite p)) idx addr value n (bridge_to d mem m'))
          λ b. b.mem ≡ store n (hi * 2 ^ 32 + lo + addr) value mem
  unfolding translate
  bar_write-open_window os p part idx lo hi lim addr value n m d mem lt fits within width mapped
        inside small =
      rw (open_window_lem (wiring_of p) part idx lo hi lim m lt) (
        Returns-map (bar_write h os (wiring_of (opposite p)) idx addr value n b)
          (λ b' k. k.stored ∙ ap (λ a. store n a value mem) place)
          (bar_write-IsWritten h os (wiring_of (opposite p)) idx addr value n b
            (record { active = active; within = inside_limit })
            (record { width = width; mapped = mapped; inside = reach }) small))
    where
      b : Bridge h
      b = bridge_to d mem (opened (wiring_of p) part idx lo hi lim m)

      config : window_config h (wiring_of (opposite p)) idx b ≡ record {
        setup = ((vm_at (opposite p) m.shm).bar_config idx).setup;
        limit = u32 lim;
        ltbase = u32 lo;
        utbase = u32 hi;
      }
      config = opened-config p part idx lo hi lim m lt

      active : (window_config h (wiring_of (opposite p)) idx b).limit ≢ 0
      active = rw config (omega arith)

      inside_limit :
          (d.bar_addr idx + addr) % 2 ^ 64 ≤ (window_config h (wiring_of (opposite p)) idx b).limit
      inside_limit = rw config (omega arith)

      place :
          translate (window_config h (wiring_of (opposite p)) idx b) addr ≡ hi * 2 ^ 32 + lo + addr
      place = rw config (omega arith)

      reach : translate (window_config h (wiring_of (opposite p)) idx b) addr + n ≤ size mem
      reach = rw place inside
