-- ===== src/Prelude/Text.antt =====
-- Texts as lists of bytes, and what the loader uses of Rust's `str` on them: lines, prefixes,
-- splitting, and reading a `u32`.
use Prim.Native.Nat.{ℕ, ◌+◌, ◌-◌, ◌*◌, ◌^◌}
use Prim.Native.Char.{code}
use Prim.Native.String.{String}
use mathlib.Core.Path.{◌≡◌, refl}
use mathlib.Core.Logic.{◌↔◌}
use mathlib.Core.Bool.{Bool, true, false, ◌&&◌, ◌||◌}
use mathlib.Core.List.{List, [], ◌∷◌, reverse}
use mathlib.Core.Option.{Option, none, some}
use native.Mathlib.Omega.{arith}
use morpheus.Prelude.Tests.{ltb, leb, ◌==◌, if◌then◌else◌}
use morpheus.Prelude.Maps.{Eq}

abbrev pub Text : Type 0
Text = List ℕ

-- The bytes of an ASCII literal.
abbrev pub text : String → Text
text String.[] = []
text (String.◌∷◌ c s) = code c ∷ text s

unfoldable pub text_beq : Text → Text → Bool
text_beq [] [] = true
text_beq [] (b ∷ t) = false
text_beq (a ∷ s) [] = false
text_beq (a ∷ s) (b ∷ t) = a == b && text_beq s t

pub text_beq_iff : (s t : Text) → (text_beq s t ≡ true) ↔ (s ≡ t)
unfolding text_beq
text_beq_iff [] [] = (λ e. refl, λ e. refl)
text_beq_iff [] (b ∷ t) = (λ e. cc, λ e. cc)
text_beq_iff (a ∷ s) [] = (λ e. cc, λ e. cc)
text_beq_iff (a ∷ s) (b ∷ t) = ground (arith, text_beq_iff s t)

instance abbrev pub text_eq : Eq Text
text_eq = record { beq = text_beq; beq_iff = text_beq_iff }

-- `strip_prefix`; `starts_with` is whether it succeeds.
unfoldable pub strip_prefix : Text → Text → Option Text
strip_prefix [] t = some t
strip_prefix (a ∷ s) [] = none
strip_prefix (a ∷ s) (b ∷ t) = if a == b then strip_prefix s t else none

-- The pieces between the bytes at which the test holds.
unfoldable pub split_by : (ℕ → Bool) → Text → Text → List Text
split_by test piece [] = reverse piece ∷ []
split_by test piece (b ∷ t) =
    let cut = reverse piece ∷ split_by test [] t in
    let on = split_by test (b ∷ piece) t in if test b then cut else on

unfoldable pub split : ℕ → Text → List Text
unfolding split_by
split c t = split_by (λ b. b == c) [] t

abbrev non_empty : List Text → List Text
non_empty [] = []
non_empty ([] ∷ ts) = non_empty ts
non_empty ((b ∷ t) ∷ ts) = (b ∷ t) ∷ non_empty ts

-- ASCII white space: 9 to 13, and the blank.
abbrev is_whitespace : ℕ → Bool
is_whitespace b = leb 9 b && leb b 13 || b == 32

unfoldable pub split_whitespace : Text → List Text
unfolding split_by
split_whitespace t = non_empty (split_by is_whitespace [] t)

-- A line loses the carriage return at its end.
abbrev strip_return : Text → Text
strip_return [] = []
strip_return (b ∷ []) = if b == 13 then [] else b ∷ []
strip_return (b ∷ c ∷ t) = b ∷ strip_return (c ∷ t)

-- The last piece has no newline behind it, and is no line if it is empty.
abbrev to_lines : List Text → List Text
to_lines [] = []
to_lines ([] ∷ []) = []
to_lines ((b ∷ t) ∷ []) = (b ∷ t) ∷ []
to_lines (l ∷ m ∷ ls) = strip_return l ∷ to_lines (m ∷ ls)

unfoldable pub lines : Text → List Text
unfolding split
lines t = to_lines (split b'\n' t)

abbrev pub digits_value : ℕ → Text → Option ℕ
digits_value acc [] = some acc
digits_value acc (b ∷ t) =
    let rest = digits_value (acc * 10 + (b - b'0')) t in
    if leb b'0' b && leb b b'9' then rest else none

abbrev checked : Option ℕ → Option ℕ
checked none = none
checked (some n) = if ltb n (2 ^ 32) then some n else none

abbrev pub number : Text → Option ℕ
number [] = none
number (b ∷ t) = digits_value 0 (b ∷ t)

-- `parse::<u32>`: decimal digits, after an optional plus sign, of a value below 2^32.
unfoldable pub parse_u32 : Text → Option ℕ
parse_u32 [] = none
parse_u32 (b ∷ t) = checked (if b == b'+' then number t else number (b ∷ t))
