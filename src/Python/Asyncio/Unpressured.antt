-- ===== src/Python/Asyncio/Unpressured.antt =====
-- The helpers of asyncio.py on the blocks that the kernel writes.
use morpheus.Prelude.{ℕ, ◌≡◌, ap, ◌∙◌, Option-cases, inl, inr, false, arith}
use morpheus.Prelude.Int.{ℤ, ◌-ℤ◌, scale, floor_div, minus, pos, negsuc}
use morpheus.Kernel.State.{Kernel}
use morpheus.Runtime.ScbHandle
use morpheus.Runtime.Worker.{Thread}
use morpheus.Python.{pressure_level}
use morpheus.Python.Asyncio.{AdaptiveCheckpointer, interval, pressure_or_zero, is_kernel_pressured}
use morpheus.System.{Steps}
use morpheus.System.Valid.{AllValid, Steps-Valid}

sub-zero : (x : ℤ) → x -ℤ pos 0 ≡ x
unfolding ◌-ℤ◌ minus
sub-zero (pos a) = ground arith
sub-zero (negsuc a) = ground arith

scale-zero : (x : ℤ) → scale x 0 ≡ pos 0
unfolding scale minus
scale-zero (pos a) = ground arith
scale-zero (negsuc a) = ground arith

interval-zero : (c : AdaptiveCheckpointer) → interval 0 c ≡ c.max_interval
unfolding interval floor_div
interval-zero c =
    ap (λ (x : ℤ). c.max_interval -ℤ floor_div x 100)
      (scale-zero (c.max_interval -ℤ c.min_interval))
    ∙ sub-zero c.max_interval

level_zero :
    (t : Thread)
    → t.scb.kernel_pressure_level ≡ 0
    → (pressure_or_zero t ≡ 0) × ((threshold : ℕ) → is_kernel_pressured threshold t ≡ false)
unfolding is_kernel_pressured pressure_or_zero pressure_level ScbHandle.pressure_level
level_zero t h = elim (Option-cases t.current_scb) [
  | inl none_there ↦ ground (arith, none_there, h)
  | inr (handle, there) ↦ ground (arith, there, h)
]

-- From a memory in which every block is valid, whatever calls of the scheduler, the runtimes and the
-- loader follow, on a thread whose block is one of the map: the kernel is never reported as pressured,
-- whatever the threshold, and the interval of a checkpointer is its upper bound.
pub never_pressured :
    {k k' : Kernel} (t : Thread) (i threshold : ℕ) (c : AdaptiveCheckpointer)
    → AllValid k
    → Steps k k'
    → t.scb ≡ k'.scb_map i
    → (is_kernel_pressured threshold t ≡ false) × (interval (pressure_or_zero t) c ≡ c.max_interval)
never_pressured t i threshold c valid steps mapped =
    let zero_there =
      ap (λ scb. scb.kernel_pressure_level) mapped ∙ (Steps-Valid valid steps i).pressure in
    let (none_there, unpressured) = level_zero t zero_there in
    (unpressured threshold, rw none_there (interval-zero c))
