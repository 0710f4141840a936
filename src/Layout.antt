-- ===== src/Layout.antt =====
-- How `repr(C)` and the C compilers of the kernel side place the fields of a struct: each at the next
-- offset that its alignment allows, and the whole rounded up to the alignment of the struct.
pub mod Memory
pub mod Block
pub mod View
pub mod Ctypes
use Prim.Native.String.{String}
use morpheus.Prelude.{
  ℕ, ◌+◌, ◌-◌, ◌*◌, ◌/◌, ◌%◌, ◌≤◌, ◌≡◌, Option, List, [], ◌∷◌, string_eq, lookup, map, arith,
}

-- `u32` and `u64`, and the atomics of the same size.
pub data Word : Type 0 where
  u32 : Word
  u64 : Word

abbrev pub width : Word → ℕ
width u32 = 4
width u64 = 8

-- A field with a count is an array of so many words; any other field counts one.
pub record Field : Type 0 where
  pub name : String
  pub word : Word
  pub count : ℕ

pub record Place : Type 0 where
  pub field : Field
  pub offset : ℕ

abbrev pub bytes : Field → ℕ
bytes f = width f.word * f.count

abbrev pub after : Place → ℕ
after p = p.offset + bytes p.field

abbrev pub align_up : Word → ℕ → ℕ
align_up u32 n = (n + 3) / 4 * 4
align_up u64 n = (n + 7) / 8 * 8

unfoldable pub place : ℕ → List Field → List Place
place at [] = []
place at (f ∷ fs) =
    record { field = f; offset = align_up f.word at } ∷ place (align_up f.word at + bytes f) fs

unfoldable pub end : ℕ → List Field → ℕ
end at [] = at
end at (f ∷ fs) = end (align_up f.word at + bytes f) fs

-- `offset_of!`.
unfoldable pub offset_of : String → List Field → Option ℕ
unfolding place lookup
offset_of name fs = lookup name (map (λ (p : Place). (p.field.name, p.offset)) (place 0 fs))

-- The type of the field of that name.
unfoldable pub word_of : String → List Field → Option Word
unfolding lookup
word_of name fs = lookup name (map (λ (f : Field). (f.name, f.word)) fs)

-- `size_of`, of a struct with that alignment.
unfoldable pub size_of : (alignment : ℕ) → List Field → ℕ
unfolding end
size_of alignment fs = (end 0 fs + (alignment - 1)) / alignment * alignment

-- Every field starts where its type allows, after the end of the one before, and ends by a limit.
abbrev pub Placed : ℕ → ℕ → List Place → Type 0
Placed start limit [] = start ≤ limit
Placed start limit (p ∷ ps) =
    (start ≤ p.offset) × (p.offset % width p.field.word ≡ 0) × Placed (after p) limit ps

align_up_bounds : (w : Word) (n : ℕ) → (n ≤ align_up w n) × (align_up w n % width w ≡ 0)
align_up_bounds u32 n = omega arith
align_up_bounds u64 n = omega arith

pub place-Placed : (at : ℕ) (fs : List Field) → Placed at (end at fs) (place at fs)
unfolding place end
place-Placed at [] = omega arith
place-Placed at (f ∷ fs) =
    let (later, aligned) = align_up_bounds f.word at in
    (later, aligned, place-Placed (align_up f.word at + bytes f) fs)
