-- ===== src/Tests/Python.antt =====
-- The Python bindings at concrete inputs.
use morpheus.Prelude.{◌≡◌, refl, true, some, [], ◌∷◌, nat_eq, arith}
use morpheus.Runtime.BpfMaps.{register_worker, open_map, from_pinned_paths}
use morpheus.Runtime.ScbHandle
use morpheus.Python.{is_in_critical_section_py}
use morpheus.Python.Critical.{inner_done, inner_exit_unprotects}
use morpheus.Python.Init.{
  System, State, Initialized, init_worker, register, map_block, attach, init_worker-Initialized,
}
use morpheus.Runtime.Worker.{Thread}
use morpheus.Python.Asyncio.{checks, pressure_or_zero}
use morpheus.Python.Asyncio.Adaptive.{checkpointer, Spaced, checks-Spaced}
use morpheus.Tests.Kernel.{hog}
use morpheus.Tests.System.{worker}
use morpheus.Tests.Runtime.{bpf, grant}

inner_exit_unprotects_example :
    ((inner_done worker).scb.is_in_critical_section ≡ 0)
    × ((inner_done worker).critical_depth ≡ 2)
    × (is_in_critical_section_py (inner_done worker) ≡ true)
inner_exit_unprotects_example =
    inner_exit_unprotects worker (record { ptr = 384; worker_id = 3 }) refl refl

abbrev system : System
system = record { obj_get = λ path. some 11; bpf = bpf; map_mut = grant; tid = 77 }

abbrev before : State
before = record { thread = worker; tid_map = (78, 4) ∷ []; scb_map = λ i. hog }

init_worker-Initialized_example :
    Initialized system 3 true before (init_worker system 3 true before).0
unfolding init_worker register map_block attach from_pinned_paths open_map register_worker
    ScbHandle.new
init_worker-Initialized_example = init_worker-Initialized system 3 true before refl

-- A worker whose pressure is 60 at every iteration: the bounds of a loop that checks every two to five.
abbrev pressed : Thread
pressed = record worker { scb = record hog { kernel_pressure_level = 60 } }

checks-Spaced_example :
    Spaced 2 5 0 (checks (pressed ∷ worker ∷ pressed ∷ pressed ∷ []) 1 (checkpointer 2 5 0)).1 5
unfolding pressure_or_zero
checks-Spaced_example =
    checks-Spaced (pressed ∷ worker ∷ pressed ∷ pressed ∷ []) 1 2 5 0 (omega arith) (omega arith)
      (omega arith, (omega arith, (omega arith, (omega arith, tt)))) (omega arith)
