-- ===== src/Loader/Psi.antt =====
-- scx_morpheus/src/main.rs: reading the pressure of the system, and the bytes of the maps that
-- carry it. A file is its text, or `none` if it cannot be read.
pub mod Laws
use morpheus.Prelude.{
  ℕ, ◌≤◌, Option, none, some, List, [], ◌∷◌, ◌++◌, leb, if◌then◌else◌, length, to_ne_bytes, read_at,
}
use morpheus.Prelude.Text.{Text, text, lines, split, split_whitespace, strip_prefix, parse_u32}
use morpheus.Common.Pressure.{GlobalPressure}
use morpheus.Kernel.State.{MorpheusStats}

-- What the code uses of `f32`.
pub record F32 : Type 1 where
  pub Float : Type 0
  pub parse : Text → Option Float
  -- `value.clamp(0.0, 100.0)`
  pub clamp : Float → Float
  -- `value as u32`
  pub as_u32 : Float → ℕ
  pub clamp_bounds : (v : Float) → as_u32 (clamp v) ≤ 100

module _ (f : F32) where
  abbrev pub find_prefixed : Text → List Text → Option Text
  find_prefixed prefix [] = none
  find_prefixed prefix (w ∷ ws) =
      let rest = find_prefixed prefix ws in
      elim (strip_prefix prefix w) [ some value ↦ some value | none ↦ rest ]

  abbrev pub percent : Option f.Float → Option ℕ
  percent none = none
  percent (some v) = some (f.as_u32 (f.clamp v))

  abbrev pub avg10_value : Option Text → Option ℕ → Option ℕ
  avg10_value none next = next
  avg10_value (some value) next = percent (f.parse value)

  -- The loop over the lines: a line that starts with "some" and has a word "avg10=…" decides.
  unfoldable pub psi_lines : List Text → Option ℕ
  unfolding strip_prefix split_whitespace
  psi_lines [] = none
  psi_lines (line ∷ rest) =
      let next = psi_lines rest in
      elim (strip_prefix (text "some") line) [
        | none ↦ next
        | some _ ↦ avg10_value (find_prefixed (text "avg10=") (split_whitespace line)) next
      ]

  unfoldable pub read_psi_avg10 : Option Text → Option ℕ
  unfolding psi_lines lines
  read_psi_avg10 file = elim file [ none ↦ none | some content ↦ psi_lines (lines content) ]

abbrev fourth : List Text → Option Text
fourth (a ∷ b ∷ c ∷ word ∷ _) = some word
fourth _ = none

abbrev first : List Text → Option Text
first [] = none
first (word ∷ _) = some word

-- The fourth word of /proc/loadavg, up to the slash.
unfoldable pub read_runqueue_depth : Option Text → Option ℕ
unfolding split split_whitespace parse_u32
read_runqueue_depth file = elim file [
  | none ↦ none
  | some content ↦ elim (fourth (split_whitespace content)) [
    | none ↦ none
    | some word ↦ elim (first (split b'/' word)) [ none ↦ none | some running ↦ parse_u32 running ]
  ]
]

abbrev pub unwrap_or : Option ℕ → ℕ → ℕ
unwrap_or none d = d
unwrap_or (some n) d = n

-- The files of /proc that the loader reads.
pub record Proc : Type 0 where
  pub pressure_cpu : Option Text
  pub pressure_io : Option Text
  pub pressure_memory : Option Text
  pub loadavg : Option Text

-- The 16 bytes that go into the pressure map.
unfoldable pub global_pressure_bytes : F32 → Proc → List ℕ
global_pressure_bytes f p =
    to_ne_bytes 4 (unwrap_or (read_psi_avg10 f p.pressure_cpu) 0)
    ++ (to_ne_bytes 4 (unwrap_or (read_psi_avg10 f p.pressure_io) 0)
        ++ (to_ne_bytes 4 (unwrap_or (read_psi_avg10 f p.pressure_memory) 0)
            ++ to_ne_bytes 4 (unwrap_or (read_runqueue_depth p.loadavg) 0)))

-- The layout of the entry, as its readers see it.
unfoldable pub read_global_pressure : List ℕ → GlobalPressure
read_global_pressure bytes = record {
  cpu_pressure_pct = read_at 0 4 bytes;
  io_pressure_pct = read_at 4 4 bytes;
  memory_pressure_pct = read_at 8 4 bytes;
  runqueue_depth = read_at 12 4 bytes;
}

-- The totals that `print_stats` prints.
pub record StatsTotals : Type 0 where
  pub total_hints : ℕ
  pub total_dropped : ℕ
  pub total_escalations : ℕ
  pub total_blocked : ℕ
  pub total_ticks : ℕ

abbrev no_totals : StatsTotals
no_totals = record {
  total_hints = 0;
  total_dropped = 0;
  total_escalations = 0;
  total_blocked = 0;
  total_ticks = 0;
}

-- From the answer of the lookup in the stats map.
unfoldable pub stats_totals : Option (List ℕ) → StatsTotals
stats_totals none = no_totals
stats_totals (some bytes) =
    if leb 40 (length bytes)
    then record {
      total_hints = read_at 0 8 bytes;
      total_dropped = read_at 8 8 bytes;
      total_escalations = read_at 16 8 bytes;
      total_blocked = read_at 24 8 bytes;
      total_ticks = read_at 32 8 bytes;
    }
    else no_totals

-- The bytes of the kernel's counters, in the order of their declaration.
unfoldable pub stats_bytes : MorpheusStats → List ℕ
stats_bytes s =
    to_ne_bytes 8 s.hints_emitted
    ++ (to_ne_bytes 8 s.hints_dropped
        ++ (to_ne_bytes 8 s.escalations
            ++ (to_ne_bytes 8 s.escalations_blocked
                ++ (to_ne_bytes 8 s.ticks_total ++ to_ne_bytes 8 s.state_checks_skipped))))
