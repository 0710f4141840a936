-- ===== src/Prelude/Bytes.antt =====
-- Words in memory, the least significant byte first: `to_ne_bytes`, `from_ne_bytes` and unaligned
-- reads on the little-endian machines that the scheduler is built for.
use Prim.Native.Nat.{ℕ, zero, suc, ◌+◌, ◌*◌, ◌/◌, ◌%◌, ◌^◌, ◌<◌}
use Prim.Native.Nat.add
use mathlib.Core.Path.{◌≡◌, refl, ap}
use mathlib.Core.List.{List, [], ◌∷◌, ◌++◌}
use native.Mathlib.Omega.{arith}
use native.Mathlib.Nat.{pow-suc}
use morpheus.Prelude.Lists.{length, take, drop}

-- The bytes of a value of `n` bytes.
unfoldable pub to_ne_bytes : ℕ → ℕ → List ℕ
to_ne_bytes zero v = []
to_ne_bytes (suc n) v = (v % 256) ∷ to_ne_bytes n (v / 256)

unfoldable pub from_ne_bytes : List ℕ → ℕ
from_ne_bytes [] = 0
from_ne_bytes (b ∷ bs) = b + 256 * from_ne_bytes bs

-- The field of `n` bytes at an offset.
unfoldable pub read_at : ℕ → ℕ → List ℕ → ℕ
unfolding from_ne_bytes
read_at offset n bytes = from_ne_bytes (take n (drop offset bytes))

pub length-to_ne_bytes : (n v : ℕ) → length (to_ne_bytes n v) ≡ n
unfolding to_ne_bytes
length-to_ne_bytes zero v = refl
length-to_ne_bytes (suc n) v = omega (arith, length-to_ne_bytes n (v / 256))

pub from-to_ne_bytes : (n v : ℕ) → v < 256 ^ n → from_ne_bytes (to_ne_bytes n v) ≡ v
unfolding to_ne_bytes from_ne_bytes
from-to_ne_bytes zero v h = omega arith
from-to_ne_bytes (suc n) v h =
    omega (arith, from-to_ne_bytes n (v / 256) (omega (arith, pow-suc 256 n)))

pub drop-append {ℓ} : {A : Type ℓ} (n : ℕ) (xs ys : List A) → length xs ≡ n → drop n (xs ++ ys) ≡ ys
drop-append zero [] ys e = refl
drop-append zero (x ∷ xs) ys e = absurd (omega arith)
drop-append (suc n) [] ys e = absurd (omega arith)
drop-append (suc n) (x ∷ xs) ys e = drop-append n xs ys (omega arith)

pub take-append {ℓ} : {A : Type ℓ} (n : ℕ) (xs ys : List A) → length xs ≡ n → take n (xs ++ ys) ≡ xs
take-append zero [] ys e = refl
take-append zero (x ∷ xs) ys e = absurd (omega arith)
take-append (suc n) [] ys e = absurd (omega arith)
take-append (suc n) (x ∷ xs) ys e = rw (take-append n xs ys (omega arith))

pub read_at-head :
    (n v : ℕ) (post : List ℕ) → v < 256 ^ n → read_at 0 n (to_ne_bytes n v ++ post) ≡ v
unfolding read_at
read_at-head n v post h =
    rw (take-append n (to_ne_bytes n v) post (length-to_ne_bytes n v)) (from-to_ne_bytes n v h)

drop-add {ℓ} :
    {A : Type ℓ} (k o : ℕ) (xs ys : List A) → length xs ≡ k → drop (k + o) (xs ++ ys) ≡ drop o ys
drop-add zero o [] ys e = rw (add.zero o)
drop-add zero o (x ∷ xs) ys e = absurd (omega arith)
drop-add (suc k) o [] ys e = absurd (omega arith)
drop-add (suc k) o (x ∷ xs) ys e = rw (add.suc k o) (drop-add k o xs ys (omega arith))

pub read_at-skip :
    (k o n v : ℕ) (post : List ℕ) → read_at (k + o) n (to_ne_bytes k v ++ post) ≡ read_at o n post
unfolding read_at
read_at-skip k o n v post =
    ap (λ b. from_ne_bytes (take n b))
      (drop-add k o (to_ne_bytes k v) post (length-to_ne_bytes k v))
