-- ===== src/MappedDiskVector/Migration.antt =====
-- Migrator::migrateFrom of eden/common/utils/MappedDiskVector.h: which constructors a record goes through.
use edencommon.Common.{ℕ, zero, suc, ◌<◌, ◌≡◌, refl, some, List, [], ◌∷◌, length, map, arith}
use edencommon.MappedDiskVector.{migrate_from}

-- The record of the first old version that comes of one of the i-th: `versions` are the constructors of
-- the old versions, each of a record of the next.
abbrev pub through : {R : Type 0} → List (R → R) → ℕ → R → R
through [] i r = r
through (first ∷ rest) zero r = r
through (first ∷ rest) (suc i) r = first (through rest i r)

-- A migration from the i-th old version takes each record, in its order, through the constructors of the
-- versions before the i-th, from the newest that is next to it to the first, and then through the
-- conversion to the type of the vector; none is lost.
pub migrate_from-through :
    {R : Type 0} (versions : List (R → R)) (i : ℕ) (convert : R → R) (original : List R)
    → i < length versions
    → migrate_from versions i convert original
      ≡ some (map (λ r. convert (through versions i r)) original)
unfolding migrate_from
migrate_from-through [] i convert original h = absurd (omega (arith, h))
migrate_from-through (first ∷ rest) zero convert original h = refl
migrate_from-through (first ∷ rest) (suc i) convert original h =
    migrate_from-through rest i (λ from. convert (first from)) original (omega (arith, h))
