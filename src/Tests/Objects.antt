-- ===== src/Tests/Objects.antt =====
-- Buffers, seeks, ids and headers at concrete inputs.
use zerostash.Prelude.{ℕ, ◌+◌, ◌≡◌, ◌≤◌, ◌↔◌, refl, none, [], ◌∷◌, ok, arith}
use zerostash.Prelude.Int.{pos, negsuc}
use zerostash.Objects.{Object, seek, end, current}
use zerostash.Objects.Seek.{Sought, seek-Sought, seek-current_iff, seek-end}
use zerostash.Meta.{MetaObjectHeader, files_at, chunks_at}
use zerostash.Tests.Samples.{sample_id}

abbrev object : Object
object = record { id = sample_id; buffer = 1 ∷ 2 ∷ 3 ∷ 4 ∷ 5 ∷ []; capacity = 5; cursor = 2 }

seek-Sought_example : Sought object (seek (current (negsuc 4)) object)
seek-Sought_example = seek-Sought (current (negsuc 4)) object

seek-current_iff_example :
    (seek (current (pos 3)) object ≡ (ok 5, record object { cursor = 5 }))
    ↔ ((◌≡◌ {A = ℕ} 5 5) × (5 ≤ 5))
seek-current_iff_example = seek-current_iff (pos 3) object 5

seek-end_example : (seek (end (pos 1)) object).1.cursor + 1 ≡ 5
seek-end_example = seek-end (pos 1) object refl (omega arith)

abbrev header : MetaObjectHeader
header = record { next_object = none; offsets = files_at 512 ∷ chunks_at 70000 ∷ []; end = 80000 }
