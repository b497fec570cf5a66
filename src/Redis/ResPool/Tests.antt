-- ===== src/Redis/ResPool/Tests.antt =====
-- A pool of two resources, for src/Redis/ResPool.h.
use talib.Prelude.{ℕ, ◌≡◌, refl, Bool, none, some, List, [], ◌∷◌, arith, ◌==◌}
use talib.Redis.ResPool.{ResPool, searched, search, store, clear, scan}
use talib.Redis.ResPool.Steps.{
  Step, searches, stores, clears, step, left_by, run, IsWithin, run-IsWithin,
}

-- The first resource is in use, the second has been handed out too often.
abbrev pool : ResPool
pool = record {
  maxlen = 2;
  timeout = 60;
  vec =
      record { num = 1; utime = 1000; data_ = some 1 }
      ∷ record { num = 100; utime = 1000; data_ = some 2 }
      ∷ [];
}

abbrev only_second : ℕ → Bool
only_second d = d == 2

abbrev steps : List Step
steps = searches 1001 only_second ∷ clears ∷ stores 1002 (searched none) 0 (some 3) ∷ []

abbrev refilled : ResPool
refilled = record pool { vec = record { num = 0; utime = 1002; data_ = some 3 } ∷ [] }

run-steps : run steps pool ≡ some refilled
unfolding run step search scan store clear left_by
run-steps = refl

run-IsWithin_example : IsWithin refilled
run-IsWithin_example = run-IsWithin steps pool refilled (omega arith) run-steps
