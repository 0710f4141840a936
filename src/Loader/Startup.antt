-- ===== src/Loader/Startup.antt =====
-- scx_morpheus/src/main.rs: `main` as a whole, with the calls of it that can fail. Each of them is
-- answered by a `Machine`; what a failed call has as its context is the result of `main`.
pub mod Restart
use Prim.Native.String.{String}
use morpheus.Prelude.{
  ℕ, ◌≡◌, Bool, true, false, Option, none, some, List, [], if◌then◌else◌, lookup, string_eq,
}
use morpheus.Runtime.Error.{Result, ok, err, Error}
use morpheus.Kernel.State.{Kernel}
use morpheus.Loader.Psi.{F32}
use morpheus.Loader.Main.{Args, Pinned, set_mode, pin_maps, Round, main_loop}

-- `Level` of the log.
pub data Level : Type 0 where
  info : Level
  debug : Level

unfoldable pub log_level : Args → Level
log_level args = if args.debug then debug else info

-- The contexts of the errors, and the one error that has a context of its own for each map.
pub data Context : Type 0 where
  failed_to_open : Context
  failed_to_load : Context
  failed_to_attach : Context
  failed_to_pin : Error → Context
  failed_to_set_handler : Context
  failed_to_add_ringbuf : Context
  failed_to_build_ringbuf : Context

-- What the libraries and the system answer. A path of the BPF file system at which an object is
-- pinned cannot be pinned again: BPF_OBJ_PIN answers EEXIST.
pub record Machine : Type 0 where
  pub opens : Bool
  pub loads : Bool
  pub attaches : Bool
  pub dir_made : Bool
  pub pins : Pinned → String → Bool
  pub handler_set : Bool
  pub ringbuf_added : Bool
  pub ringbuf_built : Bool
  pub pins-taken :
      (pinned : Pinned) (path : String) {map_id : ℕ}
      → lookup path pinned ≡ some map_id
      → pins pinned path ≡ false

-- What `main` acts on: the maps and constants of the program, which the skeleton holds, whether it is
-- attached, and the BPF file system.
pub record Session : Type 0 where
  pub kernel : Kernel
  pub attached : Bool
  pub pinned : Pinned

-- A step leaves the session, and the context of its error if it fails.
abbrev pub M : Type 0
M = Session → Session × Option Context

infixl 5 ◌>>◌
abbrev pub ◌>>◌ : M → M → M
◌>>◌ m k s = let (s', e) = m s in elim e [ none ↦ k s' | some c ↦ (s', some c) ]

-- A call that changes nothing, or fails.
abbrev pub require : Bool → Context → M
require answer context s = (s, if answer then none else some context)

unfoldable pub set_scheduler_mode : Args → M
unfolding set_mode
set_scheduler_mode args s = (record s { kernel = set_mode args s.kernel }, none)

unfoldable pub attach : Machine → M
attach m s = if m.attaches then (record s { attached = true }, none) else (s, some failed_to_attach)

abbrev pub context_of : Result (Unit {0}) → Option Context
context_of (ok _) = none
context_of (err e) = some (failed_to_pin e)

-- The maps are numbered by the caller.
unfoldable pub pin : Machine → (worker_tid_map scb_map : ℕ) → Args → M
unfolding pin_maps
pin m worker_tid_map scb_map args s =
    let (pinned, r) = pin_maps (m.pins s.pinned) m.dir_made worker_tid_map scb_map args s.pinned in
    (record s { pinned = pinned }, context_of r)

-- From the command line to the loops.
unfoldable pub start : Machine → (worker_tid_map scb_map : ℕ) → Args → M
unfolding set_scheduler_mode attach pin
start m worker_tid_map scb_map args = do
  require m.opens failed_to_open
  set_scheduler_mode args
  require m.loads failed_to_load
  attach m
  pin m worker_tid_map scb_map args
  require m.handler_set failed_to_set_handler
  require m.ringbuf_added failed_to_add_ringbuf
  require m.ringbuf_built failed_to_build_ringbuf

-- The skeleton is dropped when `main` returns, with an error too, which detaches the scheduler.
unfoldable pub drop : Session × Option Context → Session × Option Context
drop (s, e) = (record s { attached = false }, e)

-- The main loop on the maps of the session.
unfoldable pub serve : F32 → Args → List (Bool × Round) → (global_pressure : List ℕ) → M
unfolding main_loop
serve f args rounds global_pressure s = (
  record s {
    kernel =
        (main_loop f args rounds
          (record { kernel = s.kernel; global_pressure = global_pressure; printed = [] })).kernel;
  },
  none,
)

unfoldable pub main :
    F32
    → Machine
    → (worker_tid_map scb_map : ℕ) → Args
    → List (Bool × Round)
    → (global_pressure : List ℕ) → M
unfolding start serve drop
main f m worker_tid_map scb_map args rounds global_pressure s =
    drop ((start m worker_tid_map scb_map args >> serve f args rounds global_pressure) s)
