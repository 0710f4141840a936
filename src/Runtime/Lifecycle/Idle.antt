-- ===== src/Runtime/Lifecycle/Idle.antt =====
-- What the calls of the API of morpheus-runtime/src/runtime.rs can make of a runtime.
use morpheus.Prelude.{
  ℕ, zero, suc, ◌≡◌, refl, ap, true, false, if◌then◌else◌, Option, none, some, List, [], ◌∷◌, ◌++◌,
  map, append-nil, append_assoc, length,
}
use mathlib.Core.List.{map-append}
use morpheus.Runtime.Builder.{RuntimeConfig, Runtime, new, shutdown}
use morpheus.Runtime.Lifecycle.{
  Process, empty, shutdown_heap, shutdown_at, drop, drop_some, create, build_runtime, init, runtime,
  shutdown_global, owned, take_out, release, shutdown_held, Call, builds, inits, gets, stops, shuts,
  releases, call, calls,
}

-- The configuration of the runtime that a call creates.
unfoldable pub configs : Call → List RuntimeConfig
configs (builds b) = b.config ∷ []
configs (inits config) = config ∷ []
configs gets = []
configs stops = []
configs (shuts n) = []
configs (releases n) = []

unfoldable pub all_configs : List Call → List RuntimeConfig
unfolding configs
all_configs [] = []
all_configs (c ∷ cs) = configs c ++ all_configs cs

-- Every runtime is as it was created, and no thread was joined.
abbrev pub Fresh : List RuntimeConfig → Process → Type 0
Fresh cs p = (p.heap ≡ map new cs) × (p.joined ≡ [])

shutdown_heap-new :
    (i : ℕ) (cs : List RuntimeConfig) → shutdown_heap i (map new cs) ≡ (map new cs, [])
unfolding shutdown_heap new shutdown
shutdown_heap-new i [] = refl
shutdown_heap-new zero (c ∷ cs) = refl
shutdown_heap-new (suc i) (c ∷ cs) =
    ap (λ (s : List Runtime × List ℕ). (new c ∷ s.0, s.1)) (shutdown_heap-new i cs)

shutdown_at-Fresh :
    (i : ℕ) (cs : List RuntimeConfig) (p : Process) → Fresh cs p → Fresh cs (shutdown_at i p)
unfolding shutdown_at
shutdown_at-Fresh i cs p (same, none_joined) =
    rw (same, none_joined, shutdown_heap-new i cs) (refl, refl)

drop-Fresh : (i : ℕ) (cs : List RuntimeConfig) (p : Process) → Fresh cs p → Fresh cs (drop i p)
unfolding drop
drop-Fresh i cs p h = elim (owned i p) as (λ b. Fresh cs (if b then p else shutdown_at i p)) [
  | true ↦ h
  | false ↦ shutdown_at-Fresh i cs p h
]

drop_some-Fresh :
    (o : Option ℕ) (cs : List RuntimeConfig) (p : Process) → Fresh cs p → Fresh cs (drop_some o p)
unfolding drop_some
drop_some-Fresh none cs p h = h
drop_some-Fresh (some i) cs p h = drop-Fresh i cs p h

create-Fresh :
    (c : RuntimeConfig) (cs : List RuntimeConfig) (p : Process)
    → Fresh cs p
    → Fresh (cs ++ c ∷ []) (create c p)
unfolding create
create-Fresh c cs p (same, none_joined) = (rw (same, map-append) refl, none_joined)

call-Fresh :
    (c : Call) (cs : List RuntimeConfig) (p : Process)
    → Fresh cs p
    → Fresh (cs ++ configs c) (call c p)
unfolding call configs build_runtime init runtime shutdown_global shutdown_held release
call-Fresh (builds b) cs p h = create-Fresh b.config cs p h
call-Fresh (inits config) cs p h =
    drop_some-Fresh p.global (cs ++ config ∷ [])
      (record (create config p) { global = some (length p.heap) }) (create-Fresh config cs p h)
call-Fresh gets cs p h =
    rw (append-nil cs)
      (elim p.global
        as (λ o. Fresh cs (elim o [ none ↦ p | some i ↦ record p { held = i ∷ p.held } ])) [
          | none ↦ h
          | some i ↦ h
        ])
call-Fresh stops cs p h =
    rw (append-nil cs)
      (elim p.global
        as (λ o.
          Fresh cs
            (elim o [ none ↦ p | some i ↦ drop i (shutdown_at i (record p { global = none })) ])) [
              | none ↦ h
              | some i ↦
                  drop-Fresh i cs (shutdown_at i (record p { global = none }))
                    (shutdown_at-Fresh i cs (record p { global = none }) h)
            ])
call-Fresh (shuts n) cs p h =
    rw (append-nil cs)
      (elim (take_out n p.held).0
        as (λ o. Fresh cs (elim o [ none ↦ p | some i ↦ shutdown_at i p ])) [
          | none ↦ h
          | some i ↦ shutdown_at-Fresh i cs p h
        ])
call-Fresh (releases n) cs p h =
    rw (append-nil cs)
      (drop_some-Fresh (take_out n p.held).0 cs (record p { held = (take_out n p.held).1 }) h)

calls-from :
    (xs : List Call) (cs : List RuntimeConfig) (p : Process)
    → Fresh cs p
    → Fresh (cs ++ all_configs xs) (calls xs p)
unfolding calls all_configs
calls-from [] cs p h = rw (append-nil cs) h
calls-from (x ∷ xs) cs p h =
    rw (← append_assoc cs (configs x) (all_configs xs))
      (calls-from xs (cs ++ configs x) (call x p) (call-Fresh x cs p h))

-- Whatever calls a process makes (runtimes that are built, the global instance that is set, read and
-- shut down, shutdowns through any owner, and owners that go away), every runtime that was ever
-- created is still as `new` made it from its configuration, so not running and with no pool of
-- workers, and no shutdown has joined a thread.
pub calls-Fresh : (xs : List Call) → Fresh (all_configs xs) (calls xs empty)
calls-Fresh xs = calls-from xs [] empty (refl, refl)
