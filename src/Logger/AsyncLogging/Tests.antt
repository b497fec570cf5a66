-- ===== src/Logger/AsyncLogging/Tests.antt =====
-- Two lines and two rounds, for src/Logger/AsyncLogging.cpp.
use talib.Prelude.{bytes, ◌≡◌, some, List, [], ◌∷◌}
use talib.Logger.AsyncLogging.{AsyncLogging, new_logging}
use talib.Logger.AsyncLogging.Order.{Logs}
use talib.Logger.AsyncLogging.Thread.{
  Step, logs, goes_on, run, lines, run-Logs, new_logging-IsValid,
}

abbrev steps : List Step
steps = logs (bytes "one") ∷ goes_on ∷ logs (bytes "two") ∷ goes_on ∷ goes_on ∷ []

run-Logs_example :
    (a' : AsyncLogging) × (run steps new_logging ≡ some a') × Logs (lines steps) new_logging a'
run-Logs_example = run-Logs steps new_logging new_logging-IsValid
