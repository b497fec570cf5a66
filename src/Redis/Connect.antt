-- ===== src/Redis/Connect.antt =====
-- src/Redis/RedisConnect.h: a command that is sent, and its reply, read in as many parts as it comes. What the socket answers is a list of each kind; `none` is a call that waits for one
-- more answer, or a reply that `Redis/Command` does not model.
pub mod Chunks
pub mod Commands
pub mod Get
mod Tests
use talib.Prelude.{
  bytes, ℕ, ◌+◌, ◌-◌, Bool, true, false, not, Option, none, some, List, [], ◌∷◌, ◌++◌, ltb,
  if◌then◌else◌, ◌>>=◌, ◌>>◌, length, get_elem?, take, ℤ, pos,
}
use talib.Redis.Command.{
  is_timeout, Code, ok, fail, neterr, timeout, dataerr, paramerr, notfound, netclose, counted,
  Command, parse, to_string,
}
use talib.Redis.Socket.{Answer, Outcome, completed, write}

-- What one `recv` gives: some bytes, a closed connection, a time-out, another error.
pub data Received : Type 0 where
  arrived : List ℕ → Received
  closed : Received
  waits : Received
  fails : Received

-- SOCKET_TIMEOUT, in milliseconds, is how long one `recv` waits.
abbrev pub socket_timeout : ℕ
socket_timeout = 10

-- The loop goes on after a reply that is not complete.
abbrev settle :
    Option (Code × Command) → (Command → Option (Code × Command)) → Option (Code × Command)
settle none later = none
settle (some (code, c)) later = if is_timeout code then later c else some (code, c)

-- The loop of `getResult` that reads, from a state of it: `memsz` is the size of the buffer, `limit`
-- the time that a reply may stay away, `text` what has been read. No more bytes come than fit.
unfoldable pub receive : ℕ → ℕ → List Received → ℕ → List ℕ → Command → Option (Code × Command)
receive memsz limit [] delay text c = if ltb (length text) memsz then none else some (paramerr, c)
receive memsz limit (arrived chunk ∷ answers) delay text c =
    let text' = text ++ take (memsz - length text) chunk in
    let parsed = parse text' c in
    let later = λ (c' : Command). receive memsz limit answers 0 text' c' in
    if ltb (length text) memsz then settle parsed later else some (paramerr, c)
receive memsz limit (waits ∷ answers) delay text c =
    let later = receive memsz limit answers (delay + socket_timeout) text c in
    if not (ltb (length text) memsz)
    then some (paramerr, c)
    else if ltb limit (delay + socket_timeout)
    then some (timeout, c)
    else later
receive memsz limit (closed ∷ answers) delay text c =
    if ltb (length text) memsz then some (netclose, c) else some (paramerr, c)
receive memsz limit (fails ∷ answers) delay text c =
    if ltb (length text) memsz then some (neterr, c) else some (paramerr, c)

-- `status` and `msg` of the connection are those of its last command; `sent` is all that it wrote.
pub record RedisConnect : Type 0 where
  pub code : Code
  pub status : ℤ
  pub msg : List ℕ
  pub memsz : ℕ
  pub limit : ℕ
  pub passwd : List ℕ
  pub sent : List ℕ

-- The message for a code without one.
unfoldable pub error_text : Code → List ℕ → List ℕ
error_text neterr [] = bytes "network error"
error_text dataerr [] = bytes "protocol error"
error_text timeout [] = bytes "response timeout"
error_text notfound [] = bytes "element not found"
error_text fail [] = bytes "unknown error"
error_text paramerr [] = bytes "unknown error"
error_text netclose [] = bytes "unknown error"
error_text ok [] = []
error_text (counted n) [] = []
error_text code (c ∷ msg) = c ∷ msg

-- `doWork`: the command is written, then its reply is read.
unfoldable pub do_work :
    List Answer → List Received → Command → RedisConnect → Option (Code × Command × List ℕ)
unfolding write receive
do_work outgoing incoming c redis = do
  (outcome, sent) ← write 0 outgoing (to_string c) []
  elim outcome [
    | completed ↦ do
      (code, c') ← receive redis.memsz redis.limit incoming 0 [] c
      some (code, c', sent)
    | Outcome.timeout ↦ some (neterr, c, sent)
    | Outcome.neterr ↦ some (neterr, c, sent)
    | Outcome.netclose ↦ some (neterr, c, sent)
  ]

unfoldable pub get_result :
    List Answer → List Received → Command → RedisConnect → Option (Code × Command × RedisConnect)
unfolding do_work error_text
get_result outgoing incoming c redis = do
  (code, c', sent) ← do_work outgoing incoming (record c { status = pos 0; msg = [] }) redis
  let msg = error_text code c'.msg
  some (
    code,
    record c' { msg = msg },
    record redis { code = code; status = c'.status; msg = msg; sent = redis.sent ++ sent },
  )

-- A command of these words.
unfoldable pub command_of : List (List ℕ) → Command
command_of words = record { status = pos 0; msg = []; res = []; vec = words }

unfoldable pub execute :
    List Answer → List Received → List (List ℕ) → RedisConnect → Option (Code × RedisConnect)
unfolding get_result command_of
execute outgoing incoming words redis = do
  (code, c, redis') ← get_result outgoing incoming (command_of words) redis
  some (code, redis')

-- `code > 0`.
abbrev pub is_positive : Code → Bool
is_positive ok = true
is_positive (counted n) = ltb 0 n
is_positive fail = false
is_positive neterr = false
is_positive timeout = false
is_positive dataerr = false
is_positive paramerr = false
is_positive notfound = false
is_positive netclose = false

-- The elements of the reply replace those of the caller's vector if there are any.
unfoldable pub execute_into :
    List Answer
    → List Received
    → List (List ℕ)
    → List (List ℕ)
    → RedisConnect
    → Option (Code × List (List ℕ) × RedisConnect)
unfolding get_result command_of
execute_into outgoing incoming vec words redis = do
  (code, c, redis') ← get_result outgoing incoming (command_of words) redis
  some (code, if is_positive code then c.res else vec, redis')

-- `vec[0]` of an empty vector is none.
unfoldable pub first_of : Code → List (List ℕ) → List ℕ → Option (List ℕ)
first_of code vec val = if is_positive code then get_elem? vec 0 else some val
