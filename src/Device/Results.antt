-- ===== src/Device/Results.antt =====
-- How a handler ends, and what is said of it.
-- How a handler ends: normally, by a failed `assert`, or by an access that C leaves undefined
-- (a null or freed pointer, an index out of range).
pub data Outcome {ℓ} (A : Type ℓ) : Type ℓ where
  ok : A → Outcome A
  abort fault : Outcome A

infixl 5 ◌>>=◌
abbrev pub ◌>>=◌ {ℓ κ} : {A : Type ℓ} {B : Type κ} → Outcome A → (A → Outcome B) → Outcome B
ok a >>= f = f a
abort >>= f = abort
fault >>= f = fault

-- The outcome is a normal return of a value that meets `P`.
abbrev pub Returns {ℓ} : {A : Type ℓ} → Outcome A → (A → Type 0) → Type 0
Returns (ok a) P = P a
Returns abort P = ⊥
Returns fault P = ⊥

pub Returns-map {ℓ} :
    {A : Type ℓ} {P Q : A → Type 0} (o : Outcome A)
    → ((a : A) → P a → Q a)
    → Returns o P
    → Returns o Q
Returns-map (ok a) f h = f a h
Returns-map abort f h = h
Returns-map fault f h = h

pub Returns-bind {ℓ κ} :
    {A : Type ℓ} {B : Type κ} (P : A → Type 0) (Q : B → Type 0) (o : Outcome A) (f : A → Outcome B)
    → Returns o P
    → ((a : A) → P a → Returns (f a) Q)
    → Returns (o >>= f) Q
Returns-bind P Q (ok a) f h k = k a h
Returns-bind P Q abort f h k = absurd h
Returns-bind P Q fault f h k = absurd h

-- The same of two properties at once.
pub Returns-both {ℓ} :
    {A : Type ℓ} (P Q : A → Type 0) (o : Outcome A)
    → Returns o P
    → Returns o Q
    → Returns o (λ a. P a × Q a)
Returns-both P Q (ok a) p q = (p, q)
Returns-both P Q abort p q = p
Returns-both P Q fault p q = p

-- Partial correctness: the value meets `P` if there is one.
abbrev pub WhenOk {ℓ} : {A : Type ℓ} → Outcome A → (A → Type 0) → Type 0
WhenOk (ok a) P = P a
WhenOk abort P = Unit
WhenOk fault P = Unit

pub Returns-WhenOk {ℓ} :
    {A : Type ℓ} (P Q : A → Type 0) (o : Outcome A)
    → Returns o P
    → WhenOk o Q
    → Returns o (λ a. P a × Q a)
Returns-WhenOk P Q (ok a) p q = (p, q)
Returns-WhenOk P Q abort p q = p
Returns-WhenOk P Q fault p q = p

pub WhenOk-bind {ℓ κ} :
    {A : Type ℓ} {B : Type κ} (P : A → Type 0) (Q : B → Type 0) (o : Outcome A) (f : A → Outcome B)
    → WhenOk o P
    → ((a : A) → P a → WhenOk (f a) Q)
    → WhenOk (o >>= f) Q
WhenOk-bind P Q (ok a) f h k = k a h
WhenOk-bind P Q abort f h k = h
WhenOk-bind P Q fault f h k = h

pub WhenOk-map {ℓ} :
    {A : Type ℓ} (P Q : A → Type 0) (o : Outcome A)
    → ((a : A) → P a → Q a)
    → WhenOk o P
    → WhenOk o Q
WhenOk-map P Q (ok a) f h = f a h
WhenOk-map P Q abort f h = h
WhenOk-map P Q fault f h = h
