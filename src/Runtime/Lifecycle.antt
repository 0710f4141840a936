-- ===== src/Runtime/Lifecycle.antt =====
-- morpheus-runtime/src/runtime.rs: the runtimes of a process. Several callers and the global instance
-- may hold the same runtime: an `Arc` is its address, and its last owner drops it.
pub mod Idle
use morpheus.Prelude.{
  ℕ, zero, suc, Bool, false, ◌==◌, ◌||◌, Option, none, some, List, [], ◌∷◌, ◌++◌, length,
  if◌then◌else◌,
}
use morpheus.Runtime.Builder.{RuntimeConfig, Builder, Runtime, new, shutdown}

pub record Process : Type 0 where
  pub heap : List Runtime
  pub global : Option ℕ
  -- what the callers own, the newest first
  pub held : List ℕ
  -- the threads that were joined
  pub joined : List ℕ

abbrev pub empty : Process
empty = record { heap = []; global = none; held = []; joined = [] }

-- `shutdown` of the runtime at an address.
unfoldable pub shutdown_heap : ℕ → List Runtime → List Runtime × List ℕ
unfolding shutdown
shutdown_heap i [] = ([], [])
shutdown_heap zero (r ∷ rs) = let (r', js) = shutdown r in (r' ∷ rs, js)
shutdown_heap (suc i) (r ∷ rs) = let (rs', js) = shutdown_heap i rs in (r ∷ rs', js)

unfoldable pub shutdown_at : ℕ → Process → Process
unfolding shutdown_heap
shutdown_at i p =
    let (heap', js) = shutdown_heap i p.heap in record p { heap = heap'; joined = p.joined ++ js }

abbrev holds : ℕ → List ℕ → Bool
holds i [] = false
holds i (j ∷ js) = (i == j) || holds i js

abbrev pub owned : ℕ → Process → Bool
owned i p = holds i p.held || elim p.global [ none ↦ false | some j ↦ i == j ]

-- `Drop`, when an owner of the address has gone.
unfoldable pub drop : ℕ → Process → Process
unfolding shutdown_at
drop i p = if owned i p then p else shutdown_at i p

unfoldable pub drop_some : Option ℕ → Process → Process
unfolding drop
drop_some none p = p
drop_some (some i) p = drop i p

-- A runtime that the caller owns.
unfoldable pub create : RuntimeConfig → Process → Process
unfolding new
create config p = record p { heap = p.heap ++ new config ∷ []; held = length p.heap ∷ p.held }

unfoldable pub build_runtime : Builder → Process → Process
unfolding create
build_runtime b p = create b.config p

-- The assignment drops what the global instance was.
unfoldable pub init : RuntimeConfig → Process → Process
unfolding create drop_some
init config p = drop_some p.global (record (create config p) { global = some (length p.heap) })

-- `runtime()`: the caller owns the global instance too.
unfoldable pub runtime : Process → Process
runtime p = elim p.global [ none ↦ p | some i ↦ record p { held = i ∷ p.held } ]

-- `shutdown()`: the instance is taken out, shut down and dropped.
unfoldable pub shutdown_global : Process → Process
unfolding shutdown_at drop
shutdown_global p = elim p.global [
  | none ↦ p
  | some i ↦ drop i (shutdown_at i (record p { global = none }))
]

abbrev pub take_out : ℕ → List ℕ → Option ℕ × List ℕ
take_out n [] = (none, [])
take_out zero (j ∷ js) = (some j, js)
take_out (suc n) (j ∷ js) = let (i, js') = take_out n js in (i, j ∷ js')

-- A caller gives up the n-th runtime that it owns.
unfoldable pub release : ℕ → Process → Process
unfolding drop_some
release n p = let (i, held') = take_out n p.held in drop_some i (record p { held = held' })

-- `shutdown` of a runtime through its n-th owner.
unfoldable pub shutdown_held : ℕ → Process → Process
unfolding shutdown_at
shutdown_held n p = elim (take_out n p.held).0 [ none ↦ p | some i ↦ shutdown_at i p ]

-- What a caller can do.
pub data Call : Type 0 where
  builds : Builder → Call
  inits : RuntimeConfig → Call
  gets : Call
  stops : Call
  shuts : (n : ℕ) → Call
  releases : (n : ℕ) → Call

unfoldable pub call : Call → Process → Process
unfolding build_runtime init runtime shutdown_global shutdown_held release
call (builds b) p = build_runtime b p
call (inits config) p = init config p
call gets p = runtime p
call stops p = shutdown_global p
call (shuts n) p = shutdown_held n p
call (releases n) p = release n p

unfoldable pub calls : List Call → Process → Process
unfolding call
calls [] p = p
calls (c ∷ cs) p = calls cs (call c p)
