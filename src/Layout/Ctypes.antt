-- ===== src/Layout/Ctypes.antt =====
-- The shared control block as Python declares it: `MorpheusScb` of
-- morpheus-py/morpheus_common/_morpheus_shared.py, which `ctypes` lays out as a C compiler does.
use Prim.Native.String.{String}
use morpheus.Prelude.{
  ℕ, ◌≡◌, refl, ap, ◌∙◌, sym, Bool, true, false, ◌&&◌, none, some, List, [], ◌∷◌, ◌==◌, string_eq,
  All,
}
use morpheus.Layout.{Word, u32, u64, Field, offset_of, word_of, size_of}
use morpheus.Layout.Memory.{Memory}
use morpheus.Layout.Block.{
  Cell, one, five, preempt_seq, hint_loss_count, last_escalation_ns, ringbuf_overflow_count,
  reservation_token, name, Places,
}
use morpheus.Layout.View.{view, get, load_word}
use morpheus.Layout.View.Laws.{get-view, load_word-Places}
use morpheus.Layout.View.Accesses.{Side, declared, declared-Places}
use morpheus.Layout.View.Operations.{Operation, Loaded, operate_all, effect_all, view-operate_all}

unfoldable pub py_fields : List Field
py_fields =
    one "preempt_seq" u64
    ∷ one "budget_remaining_ns" u64
    ∷ one "kernel_pressure_level" u32
    ∷ one "worker_state" u32
    ∷ five "_reserved0" u64
    ∷ one "is_in_critical_section" u32
    ∷ one "escapable" u32
    ∷ one "last_ack_seq" u64
    ∷ one "runtime_priority" u32
    ∷ one "last_yield_reason" u32
    ∷ one "_reserved1" u64
    ∷ one "escalation_policy" u32
    ∷ one "_pad" u32
    ∷ record { name = "_reserved2"; word = u64; count = 3 }
    ∷ []

abbrev expected : List (String × ℕ)
expected =
    ("preempt_seq", 0)
    ∷ ("budget_remaining_ns", 8)
    ∷ ("kernel_pressure_level", 16)
    ∷ ("worker_state", 20)
    ∷ ("is_in_critical_section", 64)
    ∷ ("escapable", 68)
    ∷ ("last_ack_seq", 72)
    ∷ ("runtime_priority", 80)
    ∷ ("last_yield_reason", 84)
    ∷ ("escalation_policy", 96)
    ∷ []

unfoldable pub all_expected : List (String × ℕ) → List Field → Bool
unfolding offset_of
all_expected [] fs = true
all_expected ((field, o) ∷ rest) fs = elim (offset_of field fs) [
  | none ↦ false
  | some actual ↦ actual == o && all_expected rest fs
]

-- Whether it returns, and raises no error; the struct is packed to eight bytes.
unfoldable pub verify_offsets : List Field → Bool
unfolding all_expected size_of
verify_offsets fs = all_expected expected fs && size_of 8 fs == 128

py_verifies : verify_offsets py_fields ≡ true
unfolding verify_offsets all_expected py_fields offset_of size_of
py_verifies = refl

-- A word that the struct of Python has a field for stands where the other sides have it.
py-Places : (c : Cell) {w : Word} → word_of (name c) py_fields ≡ some w → Places py_fields c
unfolding offset_of word_of py_fields name
py-Places hint_loss_count e = cc
py-Places last_escalation_ns e = cc
py-Places ringbuf_overflow_count e = cc
py-Places reservation_token e = cc
py-Places preempt_seq e = record { offset_same = refl; word_same = refl }
py-Places c e = record { offset_same = refl; word_same = refl }

-- Whatever operations the kernel and the runtime make on the blocks, one after the other in whatever
-- order, where an acknowledgement stores a 64-bit number: a word that the struct of Python has a field
-- for is read by that struct with the value that the functions on records give it.
pub python_reads :
    (t : Side) (os : List (ℕ × Operation)) (m : Memory) (block : ℕ) (c : Cell) {w : Word}
    → All (λ (o : ℕ × Operation). Loaded o.1) os
    → word_of (name c) py_fields ≡ some w
    → load_word py_fields block c (operate_all os m)
      ≡ get c (effect_all os (view (declared t) m) block)
python_reads t os m block c loaded named =
    load_word-Places py_fields c block (operate_all os m) (py-Places c named)
    ∙ sym (load_word-Places (declared t) c block (operate_all os m) (declared-Places t c))
    ∙ sym (get-view (declared t) c (operate_all os m) block)
    ∙ ap (λ f. get c (f block)) (view-operate_all t t os m loaded)
