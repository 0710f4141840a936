-- ===== src/Layout/Memory.antt =====
-- Memory as bytes by address, with words stored the least significant byte first. A byte is the number
-- at its address, modulo 256.
use morpheus.Prelude.{
  ℕ, zero, suc, ◌+◌, ◌*◌, ◌/◌, ◌%◌, ◌^◌, ◌<◌, ◌≤◌, ◌≡◌, ◌⊎◌, inl, inr, update, refl, arith,
}
use native.Mathlib.Nat.{pow-suc}

abbrev pub Memory : Type 0
Memory = ℕ → ℕ

unfoldable pub store : (at n v : ℕ) → Memory → Memory
store at zero v m = m
store at (suc n) v m = update (store (at + 1) n (v / 256) m) at (v % 256)

unfoldable pub load : (at n : ℕ) → Memory → ℕ
load at zero m = 0
load at (suc n) m = m at % 256 + 256 * load (at + 1) n m

-- A store changes no byte before it, and none after it.
store_outside : (at n v : ℕ) (m : Memory) (i : ℕ) → (i < at) ⊎ (at + n ≤ i) → store at n v m i ≡ m i
unfolding store
store_outside at zero v m i h = refl
store_outside at (suc n) v m i h = ground (arith, store_outside (at + 1) n (v / 256) m i)

load_same :
    (at n : ℕ) (m m' : Memory)
    → ((i : ℕ) → at ≤ i → i < at + n → m' i ≡ m i)
    → load at n m' ≡ load at n m
unfolding load
load_same at zero m m' h = refl
load_same at (suc n) m m' h = omega (
  arith,
  h at (omega arith) (omega arith),
  load_same (at + 1) n m m' (λ i p q. h i (omega arith) (omega arith)),
)

-- A word that a store does not overlap keeps its value.
pub load-store_apart :
    (at n to k v : ℕ) (m : Memory)
    → (at + n ≤ to) ⊎ (to + k ≤ at)
    → load at n (store to k v m) ≡ load at n m
load-store_apart at n to k v m h =
    load_same at n m (store to k v m) (λ i p q. store_outside to k v m i (before_or_after i p q h))
  where
    before_or_after :
        (i : ℕ) → at ≤ i → i < at + n → (at + n ≤ to) ⊎ (to + k ≤ at) → (i < to) ⊎ (to + k ≤ i)
    before_or_after i p q (inl l) = inl (omega arith)
    before_or_after i p q (inr r) = inr (omega arith)

-- A word that was stored whole is read back.
pub load-store : (at n v : ℕ) (m : Memory) → v < 256 ^ n → load at n (store at n v m) ≡ v
unfolding load store
load-store at zero v m h = omega arith
load-store at (suc n) v m h =
    let rest = store (at + 1) n (v / 256) m in
    let tail = load_same (at + 1) n rest (update rest at (v % 256)) (λ i p q. ground arith) in
    let whole = load-store (at + 1) n (v / 256) m (omega (arith, pow-suc 256 n)) in
    ground (arith, tail, whole)

pub load_lt : (at n : ℕ) (m : Memory) → load at n m < 256 ^ n
unfolding load
load_lt at zero m = omega arith
load_lt at (suc n) m = omega (arith, load_lt (at + 1) n m, pow-suc 256 n)
