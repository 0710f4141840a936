-- ===== src/Layout/View/Accesses.antt =====
-- The stores of the kernel and of the runtime to the blocks, in any order, against the blocks as
-- records.
use mathlib.Core.Path.{fun_ext}
use morpheus.Prelude.{
  ℕ, ◌^◌, ◌<◌, ◌≡◌, refl, sym, ap, ◌∙◌, List, [], ◌∷◌, ◌==◌, if◌then◌else◌, arith, update, All,
  Bool-cases, inl, inr,
}
use morpheus.Common.Scb.{MorpheusScb}
use morpheus.Layout.{Field, width}
use morpheus.Layout.Memory.{Memory}
use morpheus.Layout.Block.{Cell, word, rust_fields, c_fields, Places, rust-Places, c-Places}
use morpheus.Layout.View.{view, set, store_word}
use morpheus.Layout.View.Laws.{view-Places, get-view, load_word-Places, scb_ext}

pub data Side : Type 0 where
  kernel : Side
  runtime : Side

-- What each side is compiled against.
abbrev pub declared : Side → List Field
declared kernel = c_fields
declared runtime = rust_fields

pub declared-Places : (s : Side) (c : Cell) → Places (declared s) c
declared-Places kernel c = c-Places c
declared-Places runtime c = rust-Places c

-- An atomic store: who stores which value to which word of which block.
pub record Store : Type 0 where
  pub side : Side
  pub block : ℕ
  pub cell : Cell
  pub value : ℕ

abbrev pub Fits : Store → Type 0
Fits x = x.value < 256 ^ width (word x.cell)

unfoldable pub perform : List Store → Memory → Memory
perform [] m = m
perform (x ∷ xs) m = perform xs (store_word (declared x.side) x.block x.cell x.value m)

-- The same on the map of blocks as records.
abbrev pub apply : Store → (ℕ → MorpheusScb) → ℕ → MorpheusScb
apply x f = update f x.block (set x.cell x.value (f x.block))

unfoldable pub apply_all : List Store → (ℕ → MorpheusScb) → ℕ → MorpheusScb
apply_all [] f = f
apply_all (x ∷ xs) f = apply_all xs (apply x f)

pub same_view : (s t : Side) (m : Memory) → view (declared s) m ≡ view (declared t) m
same_view s t m = fun_ext (λ d. scb_ext (view (declared s) m d) (view (declared t) m d) (λ c.
    get-view (declared s) c m d
    ∙ load_word-Places (declared s) c d m (declared-Places s c)
    ∙ sym (load_word-Places (declared t) c d m (declared-Places t c))
    ∙ sym (get-view (declared t) c m d)))

at_block :
    (b d : ℕ) (g : MorpheusScb → MorpheusScb) (f : ℕ → MorpheusScb)
    → (if b == d then g (f d) else f d) ≡ update f b (g (f b)) d
at_block b d g f = elim (Bool-cases (b == d)) [
  | inl same ↦ rw same (ap (λ n. g (f n)) (ground (arith, same)))
  | inr other ↦ rw other refl
]

view-store :
    (t : Side) (x : Store) (m : Memory)
    → Fits x
    → view (declared t) (store_word (declared x.side) x.block x.cell x.value m)
      ≡ apply x (view (declared t) m)
view-store t x m h = fun_ext (λ d.
    view-Places (declared x.side) (declared t) x.block d x.cell x.value m
      (declared-Places x.side x.cell) (declared-Places t) h
    ∙ at_block x.block d (set x.cell x.value) (view (declared t) m))

-- The records are the memory. Whatever stores the kernel and the runtime make to the blocks, each by its
-- own declaration of the struct, one after the other in whatever order, of values that fit their words:
-- read by the declaration of either side, the memory holds the blocks that the same stores make of the
-- records that either side could read before, so that every store changes one field of one record.
pub view-perform :
    (s t : Side) (xs : List Store) (m : Memory)
    → All Fits xs
    → view (declared s) (perform xs m) ≡ apply_all xs (view (declared t) m)
unfolding perform apply_all
view-perform s t [] m h = same_view s t m
view-perform s t (x ∷ xs) m h =
    view-perform s t xs (store_word (declared x.side) x.block x.cell x.value m) h.1
    ∙ ap (apply_all xs) (view-store t x m h.0)
