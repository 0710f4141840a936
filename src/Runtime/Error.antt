-- ===== src/Runtime/Error.antt =====
-- morpheus-runtime/src/error.rs. An `io::Error` is the error number of the operating system.
use Prim.Native.String.{String}
use morpheus.Prelude.{ℕ}

pub data Error : Type 0 where
  bpf_map : String → Error
  mmap : ℕ → Error
  registration : String → Error
  ring_buffer : String → Error
  invalid_worker : ℕ → Error
  not_initialized : Error
  not_supported : String → Error

pub data Result {ℓ} (A : Type ℓ) : Type ℓ where
  ok : A → Result A
  err : Error → Result A

infixl 5 ◌>>=◌
abbrev pub ◌>>=◌ {ℓ κ} : {A : Type ℓ} {B : Type κ} → Result A → (A → Result B) → Result B
ok a >>= f = f a
err e >>= f = err e
