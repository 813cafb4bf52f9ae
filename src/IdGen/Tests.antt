-- ===== src/IdGen/Tests.antt =====
-- Concrete schedules, and the theorem at one of them.
use edencommon.Common.{◌≡◌, refl, [], ◌∷◌, arith}
use edencommon.IdGen.{init, collect, generate_unique_id}
use edencommon.IdGen.Unique.{Distinct, generate-Distinct}

-- Two threads take turns.
turns : collect init [] (7 ∷ 9 ∷ 7 ∷ 9 ∷ []) ≡ 2050 ∷ 2 ∷ 2049 ∷ 1 ∷ []
unfolding collect generate_unique_id init
turns = refl

generate-Distinct_example : Distinct (collect init [] (7 ∷ 9 ∷ 7 ∷ 9 ∷ []))
generate-Distinct_example = generate-Distinct (7 ∷ 9 ∷ 7 ∷ 9 ∷ []) (omega arith)
