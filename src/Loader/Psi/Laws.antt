-- ===== src/Loader/Psi/Laws.antt =====
-- What the readers of the pressure files and of the maps promise.
use morpheus.Prelude.{
  ℕ, ◌≤◌, ◌<◌, ◌^◌, ◌≡◌, refl, Option, none, some, List, [], ◌∷◌, arith, length, subst, sym, leb,
  true, to_ne_bytes, read_at, read_at-head, read_at-skip, ◌∙◌,
}
use morpheus.Prelude.Text.{Text, text, split_whitespace, lines}
use morpheus.Kernel.State.{MorpheusStats}
use morpheus.Loader.Psi.{
  F32, Proc, psi_lines, read_psi_avg10, unwrap_or, global_pressure_bytes, read_global_pressure,
  stats_totals, stats_bytes, avg10_value, percent, find_prefixed,
}

module _ (f : F32) where
  percent-le : (v : Option f.Float) → unwrap_or (percent f v) 0 ≤ 100
  percent-le none = omega arith
  percent-le (some v) = f.clamp_bounds v

  avg10_value-le :
      (value : Option Text) (next : Option ℕ)
      → unwrap_or next 0 ≤ 100
      → unwrap_or (avg10_value f value next) 0 ≤ 100
  avg10_value-le none next h = h
  avg10_value-le (some value) next h = percent-le (f.parse value)

  psi_lines-le : (ls : List Text) → unwrap_or (psi_lines f ls) 0 ≤ 100
  unfolding psi_lines
  psi_lines-le [] = omega arith
  psi_lines-le (line ∷ rest) =
      let ih = psi_lines-le rest in
      let words = find_prefixed f (text "avg10=") (split_whitespace line) in
      ground (arith, ih, avg10_value-le words (psi_lines f rest) ih)

  psi-le : (file : Option Text) → unwrap_or (read_psi_avg10 f file) 0 ≤ 100
  unfolding read_psi_avg10
  psi-le none = omega arith
  psi-le (some content) = psi_lines-le (lines content)

  cpu-read :
      (p : Proc)
      → read_at 0 4 (global_pressure_bytes f p) ≡ unwrap_or (read_psi_avg10 f p.pressure_cpu) 0
  unfolding global_pressure_bytes
  cpu-read p = read_at-head 4 _ _ (omega (arith, psi-le p.pressure_cpu))

  io-read :
      (p : Proc)
      → read_at 4 4 (global_pressure_bytes f p) ≡ unwrap_or (read_psi_avg10 f p.pressure_io) 0
  unfolding global_pressure_bytes
  io-read p = read_at-skip 4 0 4 _ _ ∙ read_at-head 4 _ _ (omega (arith, psi-le p.pressure_io))

  memory-read :
      (p : Proc)
      → read_at 8 4 (global_pressure_bytes f p) ≡ unwrap_or (read_psi_avg10 f p.pressure_memory) 0
  unfolding global_pressure_bytes
  memory-read p =
      read_at-skip 4 4 4 _ _
      ∙ (read_at-skip 4 0 4 _ _ ∙ read_at-head 4 _ _ (omega (arith, psi-le p.pressure_memory)))

  length-pressure : (p : Proc) → length (global_pressure_bytes f p) ≡ 16
  unfolding global_pressure_bytes to_ne_bytes
  length-pressure p = refl

  -- Whatever the files of /proc hold, and also where they cannot be read, the entry that goes into
  -- the pressure map has 16 bytes, and each of its three pressures reads as a percentage.
  pub pressure-bounded :
      (p : Proc)
      → let g = read_global_pressure (global_pressure_bytes f p) in
        (length (global_pressure_bytes f p) ≡ 16)
        × (g.cpu_pressure_pct ≤ 100)
        × (g.io_pressure_pct ≤ 100)
        × (g.memory_pressure_pct ≤ 100)
  unfolding read_global_pressure
  pressure-bounded p = (
    length-pressure p,
    rw (cpu-read p) (psi-le p.pressure_cpu),
    rw (io-read p) (psi-le p.pressure_io),
    rw (memory-read p) (psi-le p.pressure_memory),
  )

length-stats_bytes : (s : MorpheusStats) → length (stats_bytes s) ≡ 48
unfolding stats_bytes to_ne_bytes
length-stats_bytes s = refl

hints-read :
    (s : MorpheusStats) → s.hints_emitted < 2 ^ 64 → read_at 0 8 (stats_bytes s) ≡ s.hints_emitted
unfolding stats_bytes
hints-read s h = read_at-head 8 _ _ h

dropped-read :
    (s : MorpheusStats) → s.hints_dropped < 2 ^ 64 → read_at 8 8 (stats_bytes s) ≡ s.hints_dropped
unfolding stats_bytes
dropped-read s h = read_at-skip 8 0 8 _ _ ∙ (read_at-head 8 _ _ h)

escalations-read :
    (s : MorpheusStats) → s.escalations < 2 ^ 64 → read_at 16 8 (stats_bytes s) ≡ s.escalations
unfolding stats_bytes
escalations-read s h = read_at-skip 8 8 8 _ _ ∙ (read_at-skip 8 0 8 _ _ ∙ (read_at-head 8 _ _ h))

blocked-read :
    (s : MorpheusStats)
    → s.escalations_blocked < 2 ^ 64
    → read_at 24 8 (stats_bytes s) ≡ s.escalations_blocked
unfolding stats_bytes
blocked-read s h =
    read_at-skip 8 16 8 _ _
    ∙ (read_at-skip 8 8 8 _ _ ∙ (read_at-skip 8 0 8 _ _ ∙ (read_at-head 8 _ _ h)))

ticks-read :
    (s : MorpheusStats) → s.ticks_total < 2 ^ 64 → read_at 32 8 (stats_bytes s) ≡ s.ticks_total
unfolding stats_bytes
ticks-read s h =
    read_at-skip 8 24 8 _ _
    ∙ (read_at-skip 8 16 8 _ _
        ∙ (read_at-skip 8 8 8 _ _ ∙ (read_at-skip 8 0 8 _ _ ∙ (read_at-head 8 _ _ h))))

-- The totals that are printed are the first five counters of the scheduler, where these are 64-bit
-- words.
pub stats_totals-stats_bytes :
    (s : MorpheusStats)
    → s.hints_emitted < 2 ^ 64
    → s.hints_dropped < 2 ^ 64
    → s.escalations < 2 ^ 64
    → s.escalations_blocked < 2 ^ 64
    → s.ticks_total < 2 ^ 64
    → stats_totals (some (stats_bytes s)) ≡ record {
      total_hints = s.hints_emitted;
      total_dropped = s.hints_dropped;
      total_escalations = s.escalations;
      total_blocked = s.escalations_blocked;
      total_ticks = s.ticks_total;
    }
unfolding stats_totals
stats_totals-stats_bytes s h d e b t =
    rw (subst (λ n. leb 40 n ≡ true) (sym (length-stats_bytes s)) refl) (
      cc (hints-read s h, dropped-read s d, escalations-read s e, blocked-read s b, ticks-read s t))
