-- ===== src/Logger/AsyncLogging.antt =====
-- src/Logger/AsyncLogging.h and AsyncLogging.cpp: the buffers between the threads that log and the
-- thread that writes. A null `unique_ptr` is none; the result none is a null pointer used, or a
-- failed assertion of the code or of ptr_vector.
pub mod Order
pub mod Thread
mod Tests
use talib.Prelude.{
  ℕ, ◌+◌, Bool, true, false, not, Option, none, some, List, [], ◌∷◌, ◌++◌, ltb, if◌then◌else◌,
  ◌>>=◌, ◌>>◌, assert, length, take,
}
use talib.Logger.LogBuffer.{LogBuffer, new_buffer, large_buffer, avail, append, reset}

-- The shared buffers, and those of the writing thread; `output` is all that `LogFile::append` has
-- been given.
pub record AsyncLogging : Type 0 where
  pub current : Option LogBuffer
  pub next : Option LogBuffer
  pub buffers : List LogBuffer
  pub backup1 : Option LogBuffer
  pub backup2 : Option LogBuffer
  pub to_write : List LogBuffer
  pub output : List ℕ

-- The constructor, and the buffers with which the thread begins.
pub new_logging : AsyncLogging
unfolding new_buffer
new_logging = record {
  current = some (new_buffer large_buffer);
  next = some (new_buffer large_buffer);
  buffers = [];
  backup1 = some (new_buffer large_buffer);
  backup2 = some (new_buffer large_buffer);
  to_write = [];
  output = [];
}

-- ptr_vector: a null pointer is refused, and so is a `pop_back` of nothing.
abbrev push_back : Option LogBuffer → List LogBuffer → Option (List LogBuffer)
push_back none v = none
push_back (some b) v = some (v ++ b ∷ [])

abbrev pub is_empty : List LogBuffer → Bool
is_empty [] = true
is_empty (b ∷ v) = false

pop_back : List LogBuffer → Option (LogBuffer × List LogBuffer)
pop_back [] = none
pop_back (b ∷ []) = some (b, [])
pop_back (b ∷ c ∷ v) = do (last, rest) ← pop_back (c ∷ v); some (last, b ∷ rest)

-- `resize(2)` where there are more.
shrink : List LogBuffer → List LogBuffer
shrink v = if ltb 2 (length v) then take 2 v else v

-- The buffer that follows a full one.
abbrev following : Option LogBuffer → LogBuffer
following none = record { size = large_buffer; text = [] }
following (some b) = b

-- `append`, under the lock.
pub append_line : List ℕ → AsyncLogging → Option AsyncLogging
unfolding append
append_line logline a = do
  current ← a.current
  if ltb (length logline) (avail current)
      then some (record a { current = some (append logline current) })
      else (do
        buffers ← push_back (some current) a.buffers
        some (record a {
          current = some (append logline (following a.next));
          next = none;
          buffers = buffers;
        }))

-- The locked part of a round of `threadRoutine`, behind its wait.
pub collect : AsyncLogging → Option AsyncLogging
collect a = do
  assert (is_empty a.to_write)
  buffers ← push_back a.current a.buffers
  some (elim a.next [
    | none ↦ record a {
      current = a.backup1;
      backup1 = none;
      to_write = buffers;
      buffers = [];
      next = a.backup2;
      backup2 = none;
    }
    | some n ↦ record a { current = a.backup1; backup1 = none; to_write = buffers; buffers = [] }
  ])

-- The loop over the buffers to write.
pub all_text : List LogBuffer → List ℕ
all_text [] = []
all_text (b ∷ v) = b.text ++ all_text v

-- A backup buffer that was given away is taken from the buffers just written.
refill : Option LogBuffer → List LogBuffer → Option (Option LogBuffer × List LogBuffer)
unfolding pop_back reset
refill (some b) v = some (some b, v)
refill none v = do (last, rest) ← pop_back v; some (some (reset last), rest)

-- The rest of the round, without the lock.
pub write_out : AsyncLogging → Option AsyncLogging
unfolding all_text shrink refill
write_out a = do
  assert (not (is_empty a.to_write))
  let output = a.output ++ all_text a.to_write
  (backup1, rest1) ← refill a.backup1 (shrink a.to_write)
  (backup2, rest2) ← refill a.backup2 rest1
  some (record a { output = output; backup1 = backup1; backup2 = backup2; to_write = [] })
