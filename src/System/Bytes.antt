-- ===== src/System/Bytes.antt =====
-- The flag of a critical section from the runtime to the scheduler, in memory.
use morpheus.Prelude.{
  ℕ, ◌≡◌, ◌≢◌, refl, subst, ap, ◌∙◌, inl, inr, some, List, [], ◌∷◌, All, arith, update, Bool-cases,
  ◌==◌,
}
use morpheus.Common.Scb.{MorpheusScb}
use morpheus.Kernel.State.{Kernel, Env, TaskCtx}
use morpheus.Kernel.Tick.{tick}
use morpheus.Kernel.Escalation.{tick-kicks}
use morpheus.Runtime.ScbHandle.{acknowledge_from, compare_exchange, enter_critical, set_priority}
use morpheus.Kernel.Ops.{charge}
use morpheus.Layout.Block.{c_fields}
use morpheus.Layout.Memory.{Memory}
use morpheus.Layout.View.{view}
use morpheus.Layout.View.Accesses.{kernel}
use morpheus.Layout.View.Operations.{
  Operation, initializes, acknowledges, enters, exits, prioritizes, raises, charges, Loaded, effect,
  effect_all, operate_all, view-operate_all,
}

-- An operation that does not end the critical section at the block, nor initialize the block.
abbrev pub Leaves : (block : ℕ) → ℕ × Operation → Type 0
Leaves block (b, exits) = b ≢ block
Leaves block (b, initializes may_escape) = b ≢ block
Leaves block (b, o) = Unit

effect-flag :
    (o : Operation) (block : ℕ) (scb : MorpheusScb)
    → Leaves block (block, o)
    → scb.is_in_critical_section ≡ 1
    → (effect o scb).is_in_critical_section ≡ 1
unfolding effect acknowledge_from compare_exchange enter_critical set_priority charge
effect-flag (initializes may_escape) block scb leaves h = ground arith
effect-flag (acknowledges target current) block scb leaves h = ground arith
effect-flag enters block scb leaves h = refl
effect-flag exits block scb leaves h = ground arith
effect-flag (prioritizes priority) block scb leaves h = h
effect-flag raises block scb leaves h = h
effect-flag (charges delta) block scb leaves h = h

update-flag :
    (b block : ℕ) (o : Operation) (f : ℕ → MorpheusScb)
    → Leaves block (b, o)
    → (f block).is_in_critical_section ≡ 1
    → (update f b (effect o (f b)) block).is_in_critical_section ≡ 1
update-flag b block o f leaves h = elim (Bool-cases (b == block)) [
  | inl same ↦
      let here : b ≡ block = ground (arith, same) in
      rw same (
        effect-flag o block (f b) (subst (λ n. Leaves block (n, o)) here leaves)
          (ap (λ n. (f n).is_in_critical_section) here ∙ h))
  | inr other ↦ rw other h
]

effect_all-flag :
    (os : List (ℕ × Operation)) (block : ℕ) (f : ℕ → MorpheusScb)
    → All (Leaves block) os
    → (f block).is_in_critical_section ≡ 1
    → (effect_all os f block).is_in_critical_section ≡ 1
unfolding effect_all
effect_all-flag [] block f leaves h = h
effect_all-flag ((b, o) ∷ os) block f leaves h =
    effect_all-flag os block (update f b (effect o (f b))) leaves.1
      (update-flag b block o f leaves.0 h)

-- The flag that the runtime stores is the one that the scheduler loads. From whatever memory, once the
-- runtime has entered a critical section at a block, by its declaration of the struct, and whatever
-- operations both sides make then, at any block, where an acknowledgement stores a 64-bit number, but
-- none that ends the critical section at that block or initializes it: a tick of a task with that
-- block, which reads the memory by the declaration in C, never kicks the CPU.
pub entered-shields :
    (os : List (ℕ × Operation)) (m : Memory) (env : Env) (pid : ℕ) (k : Kernel) (tctx : TaskCtx)
    → All (λ (o : ℕ × Operation). Loaded o.1) os
    → All (Leaves tctx.worker_id) os
    → k.task_ctx_map pid ≡ some tctx
    → k.scb_map ≡ view c_fields (operate_all ((tctx.worker_id, enters) ∷ os) m)
    → (tick env pid k).actions ≡ k.actions
unfolding effect_all effect enter_critical
entered-shields os m env pid k tctx loaded leaves e mapped =
    let block = tctx.worker_id in
    let before = view c_fields m in
    let inside = update before block (enter_critical (before block)).0 in
    let records = mapped ∙ view-operate_all kernel kernel ((block, enters) ∷ os) m (tt, loaded) in
    let flag =
      ap (λ f. (f block).is_in_critical_section) records
      ∙ effect_all-flag os block inside leaves (ground arith) in
    elim (tick-kicks env pid k) [
      | inl same ↦ same
      | inr (kicked, (c, ec, worker, may)) ↦ ground (arith, e, ec, flag, may.not_critical)
    ]
