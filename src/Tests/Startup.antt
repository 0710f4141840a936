-- ===== src/Tests/Startup.antt =====
-- The start of the loader and its build at concrete inputs.
use morpheus.Prelude.{
  ℕ, ◌≡◌, refl, Bool, true, false, Option, none, some, [], ◌∷◌, lookup, string_eq,
}
use morpheus.Prelude.Text.{text}
use morpheus.Runtime.Error.{bpf_map}
use morpheus.Kernel.State.{Kernel}
use morpheus.Kernel.Tick.{tick}
use morpheus.Kernel.Ops.{stopping}
use morpheus.Loader.Main.{Args, default_args, set_mode}
use morpheus.Loader.Startup.{Machine, Session, failed_to_pin, start}
use morpheus.Loader.Startup
use morpheus.Loader.Startup.Restart.{main-twice}
use morpheus.Loader.Build.{Output}
use morpheus.System.{here, next, task_stops, ticks}
use morpheus.System.Dormant.{kicks}
use morpheus.System.Observer.{observer_never_kicks}
use morpheus.Tests.Kernel.{kernel, env}
use morpheus.Tests.Loader.{floats}
use morpheus.Tests.Main.{round}

-- Whether a path is free.
abbrev free : Option ℕ → Bool
free none = true
free (some _) = false

free-some : {o : Option ℕ} {i : ℕ} → o ≡ some i → free o ≡ false
free-some e = rw e refl

abbrev working : Machine
working = record {
  opens = true;
  loads = true;
  attaches = true;
  dir_made = true;
  pins = λ pinned path. free (lookup path pinned);
  handler_set = true;
  ringbuf_added = true;
  ringbuf_built = true;
  pins-taken = λ pinned path e. free-some e;
}

abbrev pinning : Args
pinning = record default_args { pin_maps = true; enforce = false }

-- A program as it was built.
abbrev built : Kernel
built = record kernel { scheduler_mode = 0 }

abbrev session : Session
session = record { kernel = built; attached = false; pinned = [] }

abbrev restarted : Session
restarted = record session {
  pinned = (Startup.main floats working 5 6 pinning ((true, round) ∷ []) [] session).0.pinned;
}

main-twice_example : Startup.main floats working 7 8 pinning ((true, round) ∷ []) [] restarted ≡ (
  record restarted { kernel = set_mode pinning restarted.kernel; attached = false },
  some (failed_to_pin (bpf_map "/sys/fs/bpf/morpheus/worker_tid_map")),
)
unfolding Startup.main lookup
main-twice_example =
    main-twice floats floats working working 5 6 7 8 pinning pinning ((true, round) ∷ [])
      ((true, round) ∷ []) [] [] session restarted refl refl refl refl refl refl refl refl

abbrev started : Kernel
started = (start working 5 6 pinning session).0.kernel

observer_never_kicks_example :
    (kicks (stopping 0 env 77 (tick env 77 started)).actions ≡ 0)
    × ((stopping 0 env 77 (tick env 77 started)).escalation_ringbuf ≡ [])
observer_never_kicks_example =
    observer_never_kicks working 5 6 pinning session {k = stopping 0 env 77 (tick env 77 started)}
      refl refl (next (next here (ticks env 77)) (task_stops 0 env 77))

-- A build over the header of an older one.
abbrev dumped : Output
dumped = record { success = true; stdout = text "struct task_struct"; stderr = [] }
