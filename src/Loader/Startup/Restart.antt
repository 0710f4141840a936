-- ===== src/Loader/Startup/Restart.antt =====
-- How `main` fails, what it leaves pinned, and what the next `main` makes of it.
use Prim.Native.String.{String}
use morpheus.Prelude.{
  ℕ, ◌≡◌, Bool, true, false, Option, none, some, List, lookup, insert, string_eq, arith,
  lookup-insert, lookup-insert_self, ap, ◌∙◌,
}
use morpheus.Runtime.Error.{err, bpf_map}
use morpheus.Loader.Psi.{F32}
use morpheus.Loader.Main.{Args, Pinned, set_mode, pin_maps, pin, and_then, Round}
use morpheus.Loader.Startup.{
  Context, failed_to_pin, Machine, Session, start, serve, drop, main, context_of,
}
use morpheus.Loader.Startup

abbrev tid_path : String
tid_path = "/sys/fs/bpf/morpheus/worker_tid_map"

abbrev scb_path : String
scb_path = "/sys/fs/bpf/morpheus/scb_map"

pin_maps-leaves :
    (granted : String → Bool) (dir_made : Bool) (tid_map scb_map : ℕ) (args : Args)
    (pinned : Pinned)
    → args.pin_maps ≡ true
    → context_of (pin_maps granted dir_made tid_map scb_map args pinned).1 ≡ none
    → lookup tid_path (pin_maps granted dir_made tid_map scb_map args pinned).0 ≡ some tid_map
unfolding pin_maps pin and_then
pin_maps-leaves granted dir_made tid_map scb_map args pinned asked done = ground (
  arith,
  lookup-insert scb_path tid_path scb_map (insert tid_path tid_map pinned),
  lookup-insert_self tid_path tid_map pinned,
)

start-leaves :
    (m : Machine) (tid_map scb_map : ℕ) (args : Args) (s : Session)
    → args.pin_maps ≡ true
    → (start m tid_map scb_map args s).1 ≡ none
    → lookup tid_path (start m tid_map scb_map args s).0.pinned ≡ some tid_map
unfolding start Startup.set_scheduler_mode Startup.attach Startup.pin
start-leaves m tid_map scb_map args s asked done =
    ground (arith, pin_maps-leaves (m.pins s.pinned) m.dir_made tid_map scb_map args s.pinned)

main-leaves :
    (f : F32) (m : Machine) (tid_map scb_map : ℕ) (args : Args) (rounds : List (Bool × Round))
    (pressure : List ℕ) (s : Session)
    → args.pin_maps ≡ true
    → (main f m tid_map scb_map args rounds pressure s).1 ≡ none
    → lookup tid_path (main f m tid_map scb_map args rounds pressure s).0.pinned ≡ some tid_map
unfolding main drop serve
main-leaves f m tid_map scb_map args rounds pressure s asked done =
    ground (arith, start-leaves m tid_map scb_map args s)

pin_maps-taken :
    (granted : String → Bool) (tid_map scb_map : ℕ) (args : Args) (pinned : Pinned)
    → args.pin_maps ≡ true
    → granted tid_path ≡ false
    → pin_maps granted true tid_map scb_map args pinned ≡ (pinned, err (bpf_map tid_path))
unfolding pin_maps pin and_then
pin_maps-taken granted tid_map scb_map args pinned asked refused = ground (arith, asked, refused)

start-taken :
    (m : Machine) (tid_map scb_map old : ℕ) (args : Args) (s : Session)
    → args.pin_maps ≡ true
    → m.opens ≡ true
    → m.loads ≡ true
    → m.attaches ≡ true
    → m.dir_made ≡ true
    → lookup tid_path s.pinned ≡ some old
    → start m tid_map scb_map args s ≡ (
      record s { kernel = set_mode args s.kernel; attached = true },
      some (failed_to_pin (bpf_map tid_path)),
    )
unfolding start Startup.set_scheduler_mode Startup.attach Startup.pin
start-taken m tid_map scb_map old args s asked opens loads attaches made there =
    let refused = m.pins-taken s.pinned tid_path there in
    ground (
      arith,
      opens,
      loads,
      attaches,
      made,
      pin_maps-taken (m.pins s.pinned) tid_map scb_map args s.pinned asked refused,
    )

abbrev run_on :
    F32 → Args → List (Bool × Round) → List ℕ → Session × Option Context → Session × Option Context
run_on f args rounds pressure r = elim r.1 [
  | none ↦ serve f args rounds pressure r.0
  | some c ↦ (r.0, some c)
]

-- A loader that was asked to pin its maps and ended without an error leaves them pinned. So the next
-- one that is asked to pin, with a program of its own on the file system that the first one has left,
-- where everything up to the pinning succeeds, always fails at the first map: it pins nothing, its
-- loops do nothing to its maps, and its scheduler is detached.
pub main-twice :
    (f f' : F32) (m m' : Machine) (tid_map scb_map tid_map' scb_map' : ℕ) (args args' : Args)
    (rounds rounds' : List (Bool × Round)) (pressure pressure' : List ℕ) (s s' : Session)
    → args.pin_maps ≡ true
    → (main f m tid_map scb_map args rounds pressure s).1 ≡ none
    → s'.pinned ≡ (main f m tid_map scb_map args rounds pressure s).0.pinned
    → args'.pin_maps ≡ true
    → m'.opens ≡ true
    → m'.loads ≡ true
    → m'.attaches ≡ true
    → m'.dir_made ≡ true
    → main f' m' tid_map' scb_map' args' rounds' pressure' s' ≡ (
      record s' { kernel = set_mode args' s'.kernel; attached = false },
      some (failed_to_pin (bpf_map "/sys/fs/bpf/morpheus/worker_tid_map")),
    )
unfolding main drop
main-twice f f' m m' tid_map scb_map tid_map' scb_map' args args' rounds rounds' pressure pressure'
      s s' asked done left asked' opens loads attaches made =
    let there = main-leaves f m tid_map scb_map args rounds pressure s asked done in
    let taken =
      start-taken m' tid_map' scb_map' tid_map args' s' asked' opens loads attaches made
        (ap (lookup tid_path) left ∙ there) in
    ap (λ r. drop (run_on f' args' rounds' pressure' r)) taken
