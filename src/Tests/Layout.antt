-- ===== src/Tests/Layout.antt =====
-- The shared control block in memory at concrete inputs.
use morpheus.Prelude.{ℕ, ◌≡◌, refl, true, false, List, [], ◌∷◌, arith}
use morpheus.Kernel.State.{Kernel}
use morpheus.Kernel.Tick.{tick}
use morpheus.Layout.{word_of, u64}
use morpheus.Layout.Memory.{Memory}
use morpheus.Layout.Block.{worker_state, last_ack_seq, name, rust_fields, c_fields}
use morpheus.Layout.Ctypes.{py_fields, python_reads}
use morpheus.Layout.View.{view, get, store_word, load_word}
use morpheus.Layout.View.Accesses.{kernel, runtime}
use morpheus.Layout.View.Operations.{
  Operation, initializes, acknowledges, enters, exits, raises, charges, operate_all, effect_all,
  view-operate_all,
}
use morpheus.Layout.View.Race.{initialize_raced, initialize-keeps_request}
use morpheus.Runtime.ScbHandle.{yield_requested, enter_critical}
use morpheus.System.{Steps, here, next, ticks}
use morpheus.System
use morpheus.System.Bytes.{entered-shields}
use morpheus.System.Memory.{Stored, Steps-Stored}
use morpheus.Tests.Kernel.{context, env, with_context, hog}

-- A worker that runs, at the fourth block.
abbrev memory : Memory
memory = store_word rust_fields 3 worker_state 2 (λ a. 0)

abbrev before : Kernel
before = record (with_context context hog) { scb_map = view rust_fields memory }

abbrev after : Kernel
after = tick env 77 (System.store 3 (enter_critical (before.scb_map 3)).0 before)

Steps-Stored_example : Stored kernel 2 after.scb_map memory
Steps-Stored_example =
    Steps-Stored kernel runtime {k = before} {k' = after}
      (next (next here (System.enters 3)) (ticks env 77)) memory ((tt, tt), tt) refl

abbrev operations : List (ℕ × Operation)
operations =
    (3, initializes true)
    ∷ (3, raises)
    ∷ (4, enters)
    ∷ (3, acknowledges 1 0)
    ∷ (3, charges 700)
    ∷ []

view-operate_all_example :
    view c_fields (operate_all operations memory) ≡ effect_all operations (view rust_fields memory)
view-operate_all_example =
    view-operate_all kernel runtime operations memory (tt, (tt, (tt, (omega arith, (tt, tt)))))

python_reads_example :
    load_word py_fields 3 last_ack_seq (operate_all operations memory)
    ≡ get last_ack_seq (effect_all operations (view c_fields memory) 3)
unfolding word_of py_fields name
python_reads_example =
    python_reads kernel operations memory 3 last_ack_seq {w = u64}
      (tt, (tt, (tt, (omega arith, (tt, tt))))) refl

initialize-keeps_request_example :
    yield_requested (view c_fields (initialize_raced 1 false 3 memory) 3) ≡ true
initialize-keeps_request_example = initialize-keeps_request kernel 1 false 3 memory

-- The worker enters a critical section; a request comes, and another worker ends a section of its own.
abbrev meanwhile : List (ℕ × Operation)
meanwhile = (3, raises) ∷ (4, exits) ∷ []

abbrev entered : Kernel
entered = record (with_context context hog) {
  scb_map = view c_fields (operate_all ((3, enters) ∷ meanwhile) memory);
}

entered-shields_example : (tick env 77 entered).actions ≡ []
entered-shields_example =
    entered-shields meanwhile memory env 77 entered context (tt, (tt, tt)) (tt, (omega arith, tt))
      refl refl
