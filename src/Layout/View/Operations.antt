-- ===== src/Layout/View/Operations.antt =====
-- The operations of the two sides on a block, by the words that they store.
use mathlib.Core.Path.{fun_ext}
use morpheus.Prelude.{
  ℕ, ◌-◌, ◌^◌, ◌<◌, ◌≡◌, refl, ap, ◌∙◌, Bool, List, [], ◌∷◌, All, Bool-cases, inl, inr, arith,
  update, ◌==◌, if◌then◌else◌, ltb, leb, min, add64,
}
use morpheus.Common.Config.{default_slice_ns}
use morpheus.Common.Scb.{MorpheusScb}
use morpheus.Layout.{Field}
use morpheus.Layout.Memory.{Memory}
use morpheus.Layout.Block.{
  Cell, preempt_seq, budget_remaining_ns, kernel_pressure_level, is_in_critical_section, escapable,
  last_ack_seq, runtime_priority, Places,
}
use morpheus.Layout.View.{view, set, get}
use morpheus.Layout.View.Laws.{get_fits}
use morpheus.Layout.View.Accesses.{
  Side, kernel, runtime, declared, Store, Fits, perform, apply_all, same_view, view-perform,
  declared-Places,
}
use morpheus.Runtime.ScbHandle.{
  initialize, acknowledge_from, compare_exchange, enter_critical, exit_critical, set_priority,
}
use morpheus.Kernel.Tick.{raise_seq}
use morpheus.Kernel.Ops.{charge}

-- A word, and the value that it gets.
abbrev pub Words : Type 0
Words = List (Cell × ℕ)

-- The stores of one side to a block.
unfoldable pub at_block : Side → (block : ℕ) → Words → List Store
at_block s block [] = []
at_block s block ((c, v) ∷ ws) =
    record { side = s; block = block; cell = c; value = v } ∷ at_block s block ws

unfoldable pub sets : Words → MorpheusScb → MorpheusScb
unfolding set
sets [] scb = scb
sets ((c, v) ∷ ws) scb = sets ws (set c v scb)

-- The seven stores of `ScbHandle::new`, in order.
unfoldable pub initialize_words : Bool → Words
initialize_words may_escape =
    (preempt_seq, 0)
    ∷ (budget_remaining_ns, default_slice_ns)
    ∷ (kernel_pressure_level, 0)
    ∷ (is_in_critical_section, 0)
    ∷ (escapable, if may_escape then 1 else 0)
    ∷ (last_ack_seq, 0)
    ∷ (runtime_priority, 500)
    ∷ []

-- The operations that store to a block; an acknowledgement with what it has loaded before.
pub data Operation : Type 0 where
  initializes : (may_escape : Bool) → Operation
  acknowledges : (target current : ℕ) → Operation
  enters : Operation
  exits : Operation
  prioritizes : (priority : ℕ) → Operation
  raises : Operation
  charges : (delta : ℕ) → Operation

abbrev pub side_of : Operation → Side
side_of raises = kernel
side_of (charges delta) = kernel
side_of operation = runtime

-- The words that an operation stores, where the block is as it reads it.
unfoldable pub words : Operation → MorpheusScb → Words
unfolding initialize_words
words (initializes may_escape) scb = initialize_words may_escape
words (acknowledges target current) scb =
    if leb target current
    then []
    else if scb.last_ack_seq == current
    then (last_ack_seq, target) ∷ []
    else []
words enters scb = (is_in_critical_section, 1) ∷ []
words exits scb = (is_in_critical_section, 0) ∷ []
words (prioritizes priority) scb = (runtime_priority, min priority 1000) ∷ []
words raises scb = (preempt_seq, add64 scb.preempt_seq 1) ∷ []
words (charges delta) scb =
    (
      budget_remaining_ns,
      if ltb delta scb.budget_remaining_ns then scb.budget_remaining_ns - delta else 0,
    )
    ∷ []

-- The functions of the model.
unfoldable pub effect : Operation → MorpheusScb → MorpheusScb
unfolding initialize acknowledge_from enter_critical exit_critical set_priority charge
effect (initializes may_escape) scb = initialize may_escape scb
effect (acknowledges target current) scb = (acknowledge_from target current scb).0
effect enters scb = (enter_critical scb).0
effect exits scb = exit_critical scb
effect (prioritizes priority) scb = set_priority priority scb
effect raises scb = raise_seq scb
effect (charges delta) scb = charge delta scb

sets-words : (o : Operation) (scb : MorpheusScb) → sets (words o scb) scb ≡ effect o scb
unfolding sets words effect compare_exchange acknowledge_from
sets-words (initializes may_escape) scb = refl
sets-words (acknowledges target current) scb = ground arith
sets-words enters scb = refl
sets-words exits scb = refl
sets-words (prioritizes priority) scb = refl
sets-words raises scb = refl
sets-words (charges delta) scb = refl

-- A number that was loaded from a word of the block fits it.
abbrev pub Loaded : Operation → Type 0
Loaded (acknowledges target current) = target < 2 ^ 64
Loaded operation = Unit

words-Fits :
    (o : Operation) (fs : List Field) (m : Memory) (block : ℕ)
    → Places fs budget_remaining_ns
    → Loaded o
    → All Fits (at_block (side_of o) block (words o (view fs m block)))
unfolding words at_block get
words-Fits (initializes may_escape) fs m block p h = ground arith
words-Fits (acknowledges target current) fs m block p h = ground arith
words-Fits enters fs m block p h = ground arith
words-Fits exits fs m block p h = ground arith
words-Fits (prioritizes priority) fs m block p h = ground arith
words-Fits raises fs m block p h = ground arith
words-Fits (charges delta) fs m block p h =
    ground (arith, get_fits fs budget_remaining_ns m block p)

update-same : (f : ℕ → MorpheusScb) (b d : ℕ) → f d ≡ update f b (f b) d
update-same f b d = elim (Bool-cases (b == d)) [
  | inl same ↦ rw same (ap f (ground (arith, same)))
  | inr other ↦ rw other refl
]

update-here : (f : ℕ → MorpheusScb) (b : ℕ) (s : MorpheusScb) → update f b s b ≡ s
update-here f b s = ground arith

update-update :
    (f : ℕ → MorpheusScb) (b : ℕ) (s t : MorpheusScb) (d : ℕ)
    → update (update f b s) b t d ≡ update f b t d
update-update f b s t d = ground arith

pub apply_all-at_block :
    (s : Side) (block : ℕ) (ws : Words) (f : ℕ → MorpheusScb)
    → apply_all (at_block s block ws) f ≡ update f block (sets ws (f block))
unfolding apply_all at_block sets
apply_all-at_block s block [] f = fun_ext (update-same f block)
apply_all-at_block s block ((c, v) ∷ ws) f =
    let f' = update f block (set c v (f block)) in
    apply_all-at_block s block ws f'
    ∙ ap (λ scb. update f' block (sets ws scb)) (update-here f block (set c v (f block)))
    ∙ fun_ext (update-update f block (set c v (f block)) (sets ws (set c v (f block))))

-- What an operation does to memory, when the side that performs it reads the block by its declaration.
unfoldable pub operate : (block : ℕ) → Operation → Memory → Memory
unfolding words at_block perform
operate block o m =
    perform (at_block (side_of o) block (words o (view (declared (side_of o)) m block))) m

-- An operation on a block in memory is the function of the model on the record of that block.
pub view-operate :
    (s t : Side) (block : ℕ) (o : Operation) (m : Memory)
    → Loaded o
    → view (declared s) (operate block o m)
      ≡ update (view (declared t) m) block (effect o (view (declared t) m block))
unfolding operate
view-operate s t block o m h =
    let here = side_of o in
    let ws = words o (view (declared here) m block) in
    view-perform s here (at_block here block ws) m
      (words-Fits o (declared here) m block (declared-Places here budget_remaining_ns) h)
    ∙ apply_all-at_block here block ws (view (declared here) m)
    ∙ ap (update (view (declared here) m) block) (sets-words o (view (declared here) m block))
    ∙ ap (λ (f : ℕ → MorpheusScb). update f block (effect o (f block))) (same_view here t m)

unfoldable pub operate_all : List (ℕ × Operation) → Memory → Memory
unfolding operate
operate_all [] m = m
operate_all ((block, o) ∷ os) m = operate_all os (operate block o m)

unfoldable pub effect_all : List (ℕ × Operation) → (ℕ → MorpheusScb) → ℕ → MorpheusScb
unfolding effect
effect_all [] f = f
effect_all ((block, o) ∷ os) f = effect_all os (update f block (effect o (f block)))

-- The functions on records are the operations on memory. Whatever operations the kernel and the runtime
-- make on the blocks, one after the other in whatever order, each by its own declaration of the struct:
-- the initialization of a block, an acknowledgement of a 64-bit number that was loaded before, the
-- entry and the end of a critical section, a priority, a request, a charge to the budget. Read by the
-- declaration of either side, the memory holds the blocks that the functions on records make, one after
-- the other, of those that either side could read before.
pub view-operate_all :
    (s t : Side) (os : List (ℕ × Operation)) (m : Memory)
    → All (λ (o : ℕ × Operation). Loaded o.1) os
    → view (declared s) (operate_all os m) ≡ effect_all os (view (declared t) m)
unfolding operate_all effect_all
view-operate_all s t [] m h = same_view s t m
view-operate_all s t ((block, o) ∷ os) m h =
    view-operate_all s t os (operate block o m) h.1
    ∙ ap (effect_all os) (view-operate t t block o m h.0)
