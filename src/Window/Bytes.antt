-- ===== src/Window/Bytes.antt =====
-- A memory of bytes, lowest first: the interface can be met.
use ntb_cxl.Prelude.{
  ℕ, zero, suc, ◌+◌, ◌*◌, ◌/◌, ◌%◌, ◌^◌, ◌≤◌, ◌<◌, ◌≡◌, ◌⊎◌, inl, inr, refl, arith, update,
}
use ntb_cxl.Window.Memory.{HostMemory}
use native.Mathlib.Nat.{pow-suc}

pub record ByteMemory : Type 0 where
  pub length : ℕ
  pub byte : ℕ → ℕ

abbrev pub load_bytes : ℕ → ℕ → (ℕ → ℕ) → ℕ
load_bytes zero a f = 0
load_bytes (suc n) a f = f a % 256 + 256 * load_bytes n (a + 1) f

abbrev pub store_bytes : ℕ → ℕ → ℕ → (ℕ → ℕ) → ℕ → ℕ
store_bytes zero a v f = f
store_bytes (suc n) a v f = store_bytes n (a + 1) (v / 256) (update f a (v % 256))

store_bytes-outside :
    (n a v : ℕ) (f : ℕ → ℕ) (i : ℕ) → (i < a) ⊎ (a + n ≤ i) → store_bytes n a v f i ≡ f i
store_bytes-outside zero a v f i h = refl
store_bytes-outside (suc n) a v f i h =
    ground (arith, store_bytes-outside n (a + 1) (v / 256) (update f a (v % 256)) i)

load_bytes-apart :
    (k b : ℕ) (f g : ℕ → ℕ)
    → ((i : ℕ) → b ≤ i → i < b + k → f i ≡ g i)
    → load_bytes k b f ≡ load_bytes k b g
load_bytes-apart zero b f g h = refl
load_bytes-apart (suc k) b f g h =
    let rest = load_bytes-apart k (b + 1) f g (λ i p q. h i (omega arith) (omega arith)) in
    ground (arith, h b, rest)

pub load_bytes-store :
    (n a v : ℕ) (f : ℕ → ℕ) → v < 256 ^ n → load_bytes n a (store_bytes n a v f) ≡ v
load_bytes-store zero a v f h = omega arith
load_bytes-store (suc n) a v f h = ground (
  arith,
  store_bytes-outside n (a + 1) (v / 256) (update f a (v % 256)) a,
  load_bytes-store n (a + 1) (v / 256) (update f a (v % 256)) (omega (arith, pow-suc 256 n)),
)

pub load_bytes-store_apart :
    (n a v k b : ℕ) (f : ℕ → ℕ)
    → (a + n ≤ b) ⊎ (b + k ≤ a)
    → load_bytes k b (store_bytes n a v f) ≡ load_bytes k b f
load_bytes-store_apart n a v k b f h =
    load_bytes-apart k b (store_bytes n a v f) f
      (λ i p q. store_bytes-outside n a v f i (apart i p q h))
  where
    apart : (i : ℕ) → b ≤ i → i < b + k → (a + n ≤ b) ⊎ (b + k ≤ a) → (i < a) ⊎ (a + n ≤ i)
    apart i p q (inl x) = inr (omega arith)
    apart i p q (inr x) = inl (omega arith)

abbrev pub byte_memory : HostMemory
byte_memory = record {
  Mem = ByteMemory;
  size = λ m. m.length;
  load = λ n a m. load_bytes n a m.byte;
  store = λ n a v m. record m { byte = store_bytes n a v m.byte };
  size-store = λ n a v m. refl;
  load-store = λ n a v m. load_bytes-store n a v m.byte;
  load-store_apart = λ n a v k b m. load_bytes-store_apart n a v k b m.byte;
}
