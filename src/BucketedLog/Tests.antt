-- ===== src/BucketedLog/Tests.antt =====
-- Concrete runs of BucketedLog with buckets that count, and its theorems at concrete logs.
use edencommon.Common.{ℕ, ◌+◌, ◌≡◌, refl, [], ◌∷◌, arith}
use edencommon.BucketedLog.{BucketOps, BucketedLog, init, add, get_all, merge}
use edencommon.BucketedLog.Window.{view}
use edencommon.BucketedLog.Refine.{view-add, view-merge}

abbrev counting : BucketOps ℕ ℕ
counting = record {
  fresh = 0;
  add = λ b s. b + s;
  merge = λ a b. a + b;
  clear = λ b. 0;
  clear_fresh = λ b. refl;
}

abbrev three : BucketedLog ℕ
three = record { buckets = λ i. i + 1; window_start = 0 }

-- Samples at 0 and 1, then a look at 3.
collected :
    (get_all counting 3 (add counting 3 (add counting 3 (init counting 3) 0 5) 1 7) 3).1
    ≡ 7 ∷ 0 ∷ 0 ∷ []
unfolding get_all add init
collected = refl

-- A look with a clock that is behind the samples returns the newest bucket first.
behind : (get_all counting 3 (add counting 3 (init counting 3) 2 5) 1).1 ≡ 5 ∷ 0 ∷ 0 ∷ []
unfolding get_all add init
behind = refl

view-add_example : view counting 3 (add counting 3 three 4 10) 4 ≡ 10
view-add_example = view-add counting 3 (omega arith) three 4 10 4 (omega arith) (omega arith)

view-merge_example :
    view counting 3 (merge counting 3 three (record { buckets = λ i. 10; window_start = 1 })) 2 ≡ 13
view-merge_example =
    view-merge counting 3 (omega arith) three (record { buckets = λ i. 10; window_start = 1 })
      (omega arith) (omega arith) 2
