-- ===== src/Buffer/Tests.antt =====
-- Buffers of a few bytes, for src/common/Buffer.h and Buffer.cpp.
use talib.Prelude.{ℕ, ◌≡◌, refl, some, List, [], ◌∷◌, ◌++◌, arith, replicate}
use talib.Buffer.{Buffer, IsValid, content}
use talib.Buffer.Queue.{Call, appends, retrieves, run, queue_run, queue_step, Agrees, run-Agrees}

-- Three readable bytes behind two that have been retrieved; one byte can be written.
abbrev three : Buffer
three = record {
  buffer = replicate 10 0 ++ 65 ∷ 66 ∷ 67 ∷ 0 ∷ [];
  reader_index = 10;
  writer_index = 13;
}

three-IsValid : IsValid three
three-IsValid = record { prepend = omega arith; ordered = omega arith; within = omega arith }

abbrev two_bytes : List ℕ
two_bytes = 68 ∷ 69 ∷ []

abbrev calls : List Call
calls = appends two_bytes ∷ retrieves 4 ∷ appends (70 ∷ []) ∷ retrieves 1 ∷ []

calls_leave : queue_run calls (content three) ≡ some (70 ∷ [])
unfolding queue_run queue_step
calls_leave = refl

run-Agrees_example : Agrees (run calls three) (queue_run calls (content three))
run-Agrees_example = run-Agrees calls three three-IsValid (omega arith)
