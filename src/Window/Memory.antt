-- ===== src/Window/Memory.antt =====
-- The peer's memory as the device reaches it: loads and stores through a mapping of the host.
use ntb_cxl.Prelude.{ℕ, ◌+◌, ◌^◌, ◌≤◌, ◌<◌, ◌≡◌, ◌⊎◌}

-- `size` is the length of the mapping; `load` and `store` are `qatomic_load_acquire` and
-- `qatomic_store_release` at a type of so many bytes. A load after a store of the same width and
-- place gives the value back, and stores elsewhere do not show.
pub record HostMemory : Type 1 where
  pub Mem : Type 0
  pub size : Mem → ℕ
  pub load : ℕ → ℕ → Mem → ℕ
  pub store : ℕ → ℕ → ℕ → Mem → Mem
  pub size-store : (n a v : ℕ) (m : Mem) → size (store n a v m) ≡ size m
  pub load-store : (n a v : ℕ) (m : Mem) → v < 256 ^ n → load n a (store n a v m) ≡ v
  pub load-store_apart :
      (n a v k b : ℕ) (m : Mem) → (a + n ≤ b) ⊎ (b + k ≤ a) → load k b (store n a v m) ≡ load k b m
