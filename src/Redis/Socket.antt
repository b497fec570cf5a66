-- ===== src/Redis/Socket.antt =====
-- src/Redis/RedisConnect.h, class Socket: the loops that write and read a number of bytes. What the
-- kernel answers to each `send` and `recv` is a list; `none` is a loop that waits for one more.
pub mod Moves
mod Tests
use talib.Prelude.{
  ℕ, zero, suc, ◌+◌, ◌-◌, Bool, ◌&&◌, Option, none, some, List, [], ◌∷◌, ◌++◌, ltb, leb,
  if◌then◌else◌, take, drop,
}

-- Bytes moved, more than none; a peer that has closed; a time-out or an interruption; another error.
pub data Answer : Type 0 where
  moved : ℕ → Answer
  closed : Answer
  waits : Answer
  fails : Answer

pub data Outcome : Type 0 where
  completed : Outcome
  timeout : Outcome
  neterr : Outcome
  netclose : Outcome

-- More than 100 steps of 8 bytes or less, or of none, are too many.
abbrev pub too_slow : ℕ → ℕ → Bool
too_slow num times = leb num 8 && ltb 100 (times + 1)

abbrev pub next_times : ℕ → ℕ → ℕ
next_times num times = if ltb 8 num then 0 else times + 1

-- `write` from a state of its loop: the bytes that are left, and those that the kernel has taken. A
-- `send` that returns 0 is taken for a time-out here.
unfoldable pub write : ℕ → List Answer → List ℕ → List ℕ → Option (Outcome × List ℕ)
write times [] [] sent = some (completed, sent)
write times [] (c ∷ rest) sent = none
write times (a ∷ answers) [] sent = some (completed, sent)
write times (moved num ∷ answers) (c ∷ rest) sent =
    let later =
      write (next_times num times) answers (drop num (c ∷ rest)) (sent ++ take num (c ∷ rest)) in
    if too_slow num times then some (timeout, sent ++ take num (c ∷ rest)) else later
write times (closed ∷ answers) (c ∷ rest) sent =
    let later = write (times + 1) answers (c ∷ rest) sent in
    if ltb 100 (times + 1) then some (timeout, sent) else later
write times (waits ∷ answers) (c ∷ rest) sent =
    let later = write (times + 1) answers (c ∷ rest) sent in
    if ltb 100 (times + 1) then some (timeout, sent) else later
write times (fails ∷ answers) (c ∷ rest) sent = some (neterr, sent)

-- `read` with `completed`, from a state of its loop: the number of bytes that are missing, and what
-- has been read; `stream` is what the peer sends.
unfoldable pub read : ℕ → List Answer → ℕ → List ℕ → List ℕ → Option (Outcome × List ℕ)
read times [] zero stream got = some (completed, got)
read times [] (suc missing) stream got = none
read times (a ∷ answers) zero stream got = some (completed, got)
read times (moved num ∷ answers) (suc missing) stream got =
    let later =
      read (next_times num times) answers (suc missing - num) (drop num stream)
        (got ++ take num stream) in
    if too_slow num times then some (timeout, got ++ take num stream) else later
read times (closed ∷ answers) (suc missing) stream got = some (netclose, got)
read times (waits ∷ answers) (suc missing) stream got =
    let later = read (times + 1) answers (suc missing) stream got in
    if ltb 100 (times + 1) then some (timeout, got) else later
read times (fails ∷ answers) (suc missing) stream got = some (neterr, got)
