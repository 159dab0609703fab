-- ===== src/Window/Access.antt =====
-- What reads and writes through a window do. About qemu_src/hw/misc/idt_ntb_ivshmem.c, lines 866
-- to 948.
use ntb_cxl.Prelude.{
  ℕ, ◌+◌, ◌^◌, ◌%◌, ◌≤◌, ◌<◌, ◌≡◌, ◌≢◌, ◌⊎◌, arith, true, ◌||◌, sym, ap, subst, ◌∙◌,
}
use mathlib.Core.Path.{subst₂}
use ntb_cxl.Device.{ok, fault, ◌>>=◌, Returns, Returns-map, Returns-bind, Wiring, vm_at}
use ntb_cxl.Window.Memory.{HostMemory}
use ntb_cxl.Window.Defs.{
  MapCalls, map_peer_shm, translate, Bridge, bus_address, window_config, report, bar_read,
  bar_write,
}

module _ (h : HostMemory) where
  open h use {Mem, size, load, store, size-store, load-store, load-store_apart}

  -- The window is active and the access starts at or below its limit.
  pub record IsOpen (w : Wiring) (idx addr : ℕ) (b : Bridge h) : Type 0 where
    pub active : (window_config h w idx b).limit ≢ 0
    pub within : bus_address h b idx addr ≤ (window_config h w idx b).limit

  -- An access of `n` bytes can be made: the peer's memory is mapped, or can be, and the translated
  -- bytes lie in it.
  pub record IsReachable (os : MapCalls) (w : Wiring) (idx addr n : ℕ) (b : Bridge h) : Type 0 where
    pub width : (n ≡ 4) ⊎ (n ≡ 8)
    pub mapped : (b.machine.dev.peer_mapped || map_peer_shm os b.machine.dev.self_number) ≡ true
    pub inside : translate (window_config h w idx b) addr + n ≤ size b.mem

  -- `b'` is `b` after `value` went to the `n` bytes at the translated address: the memory changes
  -- there, the shared registers, the bus addresses and the effects stay, and the mapping is kept.
  pub record IsWritten (w : Wiring) (idx addr value n : ℕ) (b b' : Bridge h) : Type 0 where
    pub stored : b'.mem ≡ store n (translate (window_config h w idx b) addr) value b.mem
    pub registers : b'.machine.shm ≡ b.machine.shm
    pub bus : b'.machine.dev.bar_addr ≡ b.machine.dev.bar_addr
    pub effects : b'.machine.effects ≡ b.machine.effects
    pub mapping : b'.machine.dev.peer_mapped ≡ true

  -- A write into an open, reachable window stores exactly the value, at the translated address.
  pub bar_write-IsWritten :
      (os : MapCalls) (w : Wiring) (idx addr value n : ℕ) (b : Bridge h)
      → IsOpen w idx addr b
      → IsReachable os w idx addr n b
      → value < 256 ^ n
      → Returns (bar_write h os w idx addr value n b) (IsWritten w idx addr value n b)
  unfolding bar_write
  bar_write-IsWritten os w idx addr value n b o r small = ground arith

  -- The result `r` of a read: the memory's value at the translated address, with the memory, the
  -- shared registers and the effects as before.
  abbrev pub IsLoaded : Wiring → ℕ → ℕ → ℕ → Bridge h → ℕ × Bridge h → Type 0
  IsLoaded w idx addr n b r =
      (r.0 ≡ load n (translate (window_config h w idx b) addr) b.mem)
      × (r.1.mem ≡ b.mem)
      × (r.1.machine.shm ≡ b.machine.shm)
      × (r.1.machine.effects ≡ b.machine.effects)

  -- A read of an open, reachable window changes no memory and gives the memory's value at the translated address.
  pub bar_read-load :
      (os : MapCalls) (w : Wiring) (idx addr n : ℕ) (b : Bridge h)
      → IsOpen w idx addr b
      → IsReachable os w idx addr n b
      → Returns (bar_read h os w idx addr n b) (IsLoaded w idx addr n b)
  unfolding bar_read
  bar_read-load os w idx addr n b o r = ground arith

  -- A window that is inactive, or an access above its limit: a write leaves the memory alone and a
  -- read gives 0, each with an error report.
  bar-closed :
      (os : MapCalls) (w : Wiring) (idx addr value n : ℕ) (b : Bridge h)
      → ((window_config h w idx b).limit ≡ 0)
        ⊎ ((window_config h w idx b).limit < bus_address h b idx addr)
      → (bar_write h os w idx addr value n b ≡ ok (report h b))
        × (bar_read h os w idx addr n b ≡ ok (0, report h b))
  unfolding bar_write bar_read
  bar-closed os w idx addr value n b closed = (ground arith, ground arith)

  -- The translated address is not checked against the peer's memory: an access that an open window
  -- lets through and that ends behind the mapping is undefined.
  pub bar-fault :
      (os : MapCalls) (w : Wiring) (idx addr value n : ℕ) (b : Bridge h)
      → IsOpen w idx addr b
      → (n ≡ 4) ⊎ (n ≡ 8)
      → (b.machine.dev.peer_mapped || map_peer_shm os b.machine.dev.self_number) ≡ true
      → size b.mem < translate (window_config h w idx b) addr + n
      → (bar_write h os w idx addr value n b ≡ fault) × (bar_read h os w idx addr n b ≡ fault)
  unfolding bar_write bar_read
  bar-fault os w idx addr value n b o width mapped outside = (ground arith, ground arith)

  -- The limit that the driver sets is the bus address behind a window of `len` bytes. A write there,
  -- wholly outside the window, is stored all the same.
  pub bar_write-past_window :
      (os : MapCalls) (w : Wiring) (idx len value n : ℕ) (b : Bridge h)
      → (window_config h w idx b).limit ≡ b.machine.dev.bar_addr idx + len
      → 0 < (window_config h w idx b).limit
      → (window_config h w idx b).limit < 2 ^ 32
      → IsReachable os w idx len n b
      → value < 256 ^ n
      → Returns (bar_write h os w idx len value n b) (IsWritten w idx len value n b)
  bar_write-past_window os w idx len value n b edge pos fits r small =
      bar_write-IsWritten os w idx len value n b
        (record { active = omega arith; within = omega arith }) r small

  module _ {w : Wiring} {idx addr value n : ℕ} {b b' : Bridge h}
      (k : IsWritten w idx addr value n b b') where
    same_config : (j : ℕ) → window_config h w j b' ≡ window_config h w j b
    same_config j = ap (λ s. (vm_at w.bar_config s).bar_config j) k.registers

    still-IsOpen : (j at : ℕ) → IsOpen w j at b → IsOpen w j at b'
    still-IsOpen j at o = record {
      active = subst (λ c. c.limit ≢ 0) (sym (same_config j)) o.active;
      within =
          subst₂ (λ c f. (f j + at) % 2 ^ 64 ≤ c.limit) (sym (same_config j)) (sym k.bus) o.within;
    }

    still-IsReachable :
        (os : MapCalls) (j at c : ℕ) → IsReachable os w j at c b → IsReachable os w j at c b'
    still-IsReachable os j at c r = record {
      width = r.width;
      mapped = rw k.mapping;
      inside =
          subst₂ (λ d z. translate d at + c ≤ z) (sym (same_config j))
            (sym (ap size k.stored ∙ size-store n _ value b.mem)) r.inside;
    }

  -- Round trip: a value written through a window is read back through it, at the same offset and
  -- width.
  pub bar_read-bar_write :
      (os : MapCalls) (w : Wiring) (idx addr value n : ℕ) (b : Bridge h)
      → IsOpen w idx addr b
      → IsReachable os w idx addr n b
      → value < 256 ^ n
      → Returns
          (bar_write h os w idx addr value n b >>= bar_read h os w idx addr n)
          (λ r. r.0 ≡ value)
  bar_read-bar_write os w idx addr value n b o r small =
      Returns-bind (IsWritten w idx addr value n b) (λ r. r.0 ≡ value) _ _
        (bar_write-IsWritten os w idx addr value n b o r small)
        (λ b' k.
          Returns-map _ (λ (q : ℕ × Bridge h) (e : IsLoaded w idx addr n b' q). e.0 ∙ reads b' k)
            (bar_read-load os w idx addr n b' (still-IsOpen k idx addr o)
              (still-IsReachable k os idx addr n r)))
    where
      reads :
          (b' : Bridge h)
          → IsWritten w idx addr value n b b'
          → load n (translate (window_config h w idx b') addr) b'.mem ≡ value
      reads b' k = rw (same_config k idx, k.stored) (load-store n _ value b.mem small)
