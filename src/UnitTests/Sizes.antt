-- ===== src/UnitTests/Sizes.antt =====
-- morpheus-common/src/lib.rs: the fields of the hint and of the pressure indicators, which both sides
-- lay out as they are written.
use morpheus.Prelude.{List, [], ◌∷◌}
use morpheus.Layout.{Field, u32, u64}
use morpheus.Layout.Block.{one}

unfoldable pub hint_fields : List Field
hint_fields = one "seq" u64 ∷ one "reason" u32 ∷ one "target_tid" u32 ∷ one "deadline_ns" u64 ∷ []

unfoldable pub pressure_fields : List Field
pressure_fields =
    one "cpu_pressure_pct" u32
    ∷ one "io_pressure_pct" u32
    ∷ one "memory_pressure_pct" u32
    ∷ one "runqueue_depth" u32
    ∷ []
