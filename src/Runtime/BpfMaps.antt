-- ===== src/Runtime/BpfMaps.antt =====
-- morpheus-runtime/src/bpf_maps.rs: registration with the map of worker thread ids. The system call
-- `bpf` is a parameter; a path that is refused stands for itself in the error.
pub mod Attr
pub mod ObjGet
use Prim.Native.String.{String}
use morpheus.Prelude.{
  ℕ, ◌≡◌, ◌⊎◌, inl, inr, Option, none, some, List, ◌==◌, if◌then◌else◌, lookup, nat_eq, arith,
}
use morpheus.Runtime.Error.{Result, ok, err, ◌>>=◌, registration, bpf_map}

pub record BpfMapFds : Type 0 where
  pub tid_map_fd : ℕ
  pub scb_map_fd : ℕ

-- `obj_get` is BPF_OBJ_GET: the descriptor of a pinned map, or `none`.
unfoldable pub open_map : (obj_get : String → Option ℕ) → String → Result ℕ
open_map obj_get path = elim (obj_get path) [ none ↦ err (bpf_map path) | some fd ↦ ok fd ]

unfoldable pub from_pinned_paths :
    (obj_get : String → Option ℕ) → (tid_map_path scb_map_path : String) → Result BpfMapFds
unfolding open_map
from_pinned_paths obj_get tid_map_path scb_map_path = do
  tid_map_fd ← open_map obj_get tid_map_path
  scb_map_fd ← open_map obj_get scb_map_path
  ok (record { tid_map_fd = tid_map_fd; scb_map_fd = scb_map_fd })

-- The map of the kernel from thread ids to worker ids.
abbrev pub TidMap : Type 0
TidMap = List (ℕ × ℕ)

abbrev pub enoent : ℕ
enoent = 2

-- What BPF_MAP_UPDATE_ELEM and BPF_MAP_DELETE_ELEM answer on a hash map: an error number, or the
-- map that they leave.
pub data Answer : Type 0 where
  failed : (errno : ℕ) → Answer
  done : TidMap → Answer

pub record Bpf : Type 0 where
  pub update_elem : (tid worker_id : ℕ) → TidMap → Answer
  pub delete_elem : (tid : ℕ) → TidMap → Answer
  pub update_done :
      (tid worker_id : ℕ) (m : TidMap) {m' : TidMap}
      → update_elem tid worker_id m ≡ done m'
      → (j : ℕ) → lookup j m' ≡ (if tid == j then some worker_id else lookup j m)
  pub delete_done :
      (tid : ℕ) (m : TidMap) {m' : TidMap}
      → delete_elem tid m ≡ done m'
      → (j : ℕ) → lookup j m' ≡ (if tid == j then none else lookup j m)
  -- ENOENT says that there was no entry.
  pub delete_missing :
      (tid : ℕ) (m : TidMap) → delete_elem tid m ≡ failed enoent → lookup tid m ≡ none

unfoldable pub register_answer : Answer → Result TidMap
register_answer (failed errno) = err (registration "failed to register worker")
register_answer (done m') = ok m'

-- ENOENT is no error: the worker may be gone already.
unfoldable pub unregister_answer : TidMap → Answer → Result TidMap
unregister_answer m (failed errno) =
    if errno == enoent then ok m else err (registration "failed to unregister worker")
unregister_answer m (done m') = ok m'

register_answer-ok : (a : Answer) {m : TidMap} → register_answer a ≡ ok m → a ≡ done m
unfolding register_answer
register_answer-ok (failed errno) e = cc
register_answer-ok (done m') e = cc

unregister_answer-ok :
    (m : TidMap) (a : Answer) {m' : TidMap}
    → unregister_answer m a ≡ ok m'
    → (a ≡ done m') ⊎ (a ≡ failed enoent) × (m' ≡ m)
unfolding unregister_answer
unregister_answer-ok m (failed errno) e = ground arith
unregister_answer-ok m (done m') e = inl cc

module _ (bpf : Bpf) where
  unfoldable pub register_worker : (tid worker_id : ℕ) → TidMap → Result TidMap
  unfolding register_answer
  register_worker tid worker_id m = register_answer (bpf.update_elem tid worker_id m)

  unfoldable pub unregister_worker : (tid : ℕ) → TidMap → Result TidMap
  unfolding unregister_answer
  unregister_worker tid m = unregister_answer m (bpf.delete_elem tid m)

  pub register-maps :
      (tid worker_id : ℕ) (m : TidMap) {m' : TidMap} (j : ℕ)
      → register_worker tid worker_id m ≡ ok m'
      → lookup j m' ≡ (if tid == j then some worker_id else lookup j m)
  unfolding register_worker
  register-maps tid worker_id m j e =
      bpf.update_done tid worker_id m (register_answer-ok (bpf.update_elem tid worker_id m) e) j

  unregister-maps :
      (tid : ℕ) (m : TidMap) {m' : TidMap} (j : ℕ)
      → unregister_worker tid m ≡ ok m'
      → lookup j m' ≡ (if tid == j then none else lookup j m)
  unfolding unregister_worker
  unregister-maps tid m j e = elim (unregister_answer-ok m (bpf.delete_elem tid m) e) [
    | inl deleted ↦ bpf.delete_done tid m deleted j
    | inr (missing, same) ↦ rw same (ground (arith, bpf.delete_missing tid m missing))
  ]

  -- After a registration that succeeds the thread is mapped to its worker, and after an
  -- unregistration that succeeds then, also one that finds no entry, no thread is mapped otherwise
  -- than before both, but that one thread, which is not mapped at all.
  pub unregister-register :
      (tid worker_id : ℕ) (m : TidMap) {m' m'' : TidMap} (j : ℕ)
      → register_worker tid worker_id m ≡ ok m'
      → unregister_worker tid m' ≡ ok m''
      → (lookup tid m' ≡ some worker_id) × (lookup j m'' ≡ (if tid == j then none else lookup j m))
  unregister-register tid worker_id m {m'} j reg unreg = ground (
    arith,
    register-maps tid worker_id m tid reg,
    register-maps tid worker_id m j reg,
    unregister-maps tid m' j unreg,
  )
