-- ===== src/Redis/Connect/Commands.antt =====
-- src/Redis/RedisConnect.h: the commands of the client.
use talib.Prelude.{
  decimal, bytes, ℕ, suc, Bool, true, false, ◌&&◌, Option, some, List, [], ◌∷◌, ltb, ◌==◌,
  if◌then◌else◌, ◌>>=◌, length, ℤ, pos, negsuc,
}
use talib.Redis.Command.{
  Code, ok, fail, neterr, timeout, dataerr, paramerr, notfound, netclose, counted,
}
use talib.Redis.Socket.{Answer}
use talib.Redis.Connect.{Received, RedisConnect, execute, execute_into, first_of}

-- The commands, by the words that each sends. A key and a value are texts, a count is a number.
pub data Request : Type 0 where
  ping : Request
  del ttl hlen : List ℕ → Request
  decr incr expire : List ℕ → ℤ → Request
  hdel : List ℕ → List ℕ → Request
  set : List ℕ → List ℕ → ℤ → Request
  hset : List ℕ → List ℕ → List ℕ → Request
  lpush rpush : List ℕ → List ℕ → Request
  zrem : List ℕ → List ℕ → Request
  zadd : List ℕ → List ℕ → ℤ → Request

-- `to_string` of an `int`.
abbrev pub int_text : ℤ → List ℕ
int_text (pos n) = decimal n
int_text (negsuc n) = b'-' ∷ decimal (suc n)

abbrev pub is_above_zero : ℤ → Bool
is_above_zero (pos n) = ltb 0 n
is_above_zero (negsuc n) = false

unfoldable pub words_of : Request → List (List ℕ)
words_of ping = bytes "ping" ∷ []
words_of (del key) = bytes "del" ∷ key ∷ []
words_of (ttl key) = bytes "ttl" ∷ key ∷ []
words_of (hlen key) = bytes "hlen" ∷ key ∷ []
words_of (decr key val) = bytes "decrby" ∷ key ∷ int_text val ∷ []
words_of (incr key val) = bytes "incrby" ∷ key ∷ int_text val ∷ []
words_of (expire key seconds) = bytes "expire" ∷ key ∷ int_text seconds ∷ []
words_of (hdel key filed) = bytes "hdel" ∷ key ∷ filed ∷ []
words_of (set key val seconds) =
    if is_above_zero seconds
    then bytes "setex" ∷ key ∷ int_text seconds ∷ val ∷ []
    else bytes "set" ∷ key ∷ val ∷ []
words_of (hset key filed val) = bytes "hset" ∷ key ∷ filed ∷ val ∷ []
words_of (lpush key val) = bytes "lpush" ∷ key ∷ val ∷ []
words_of (rpush key val) = bytes "rpush" ∷ key ∷ val ∷ []
words_of (zrem key filed) = bytes "zrem" ∷ key ∷ filed ∷ []
words_of (zadd key filed score) = bytes "zadd" ∷ key ∷ int_text score ∷ filed ∷ []

-- `ttl` and `hlen` return the number of the reply, the others the code; both as the `int` it is.
unfoldable pub code_number : Code → ℤ
code_number ok = pos 1
code_number (counted n) = pos n
code_number fail = negsuc 0
code_number neterr = negsuc 3
code_number timeout = negsuc 4
code_number dataerr = negsuc 5
code_number paramerr = negsuc 7
code_number notfound = negsuc 8
code_number netclose = negsuc 9

-- `code == OK`.
abbrev pub is_ok : Code → Bool
is_ok ok = true
is_ok (counted n) = n == 1
is_ok fail = false
is_ok neterr = false
is_ok timeout = false
is_ok dataerr = false
is_ok paramerr = false
is_ok notfound = false
is_ok netclose = false

abbrev pub wants_status : Request → Bool
wants_status (ttl key) = true
wants_status (hlen key) = true
wants_status r = false

abbrev pub returned : Request → Code → ℤ → ℤ
returned r code status = if wants_status r && is_ok code then status else code_number code

unfoldable pub run :
    List Answer → List Received → Request → RedisConnect → Option (ℤ × RedisConnect)
unfolding execute words_of code_number
run outgoing incoming r redis = do
  (code, redis') ← execute outgoing incoming (words_of r) redis
  some (returned r code redis'.status, redis')

-- The commands that read one element, and those that read several.
pub data Query : Type 0 where
  get lpop rpop : List ℕ → Query
  hget : List ℕ → List ℕ → Query

pub data Listing : Type 0 where
  keys : List ℕ → Listing
  lrange : List ℕ → ℤ → ℤ → Listing
  zrange : List ℕ → ℤ → ℤ → Bool → Listing

unfoldable pub query_words : Query → List (List ℕ)
query_words (get key) = bytes "get" ∷ key ∷ []
query_words (lpop key) = bytes "lpop" ∷ key ∷ []
query_words (rpop key) = bytes "rpop" ∷ key ∷ []
query_words (hget key filed) = bytes "hget" ∷ key ∷ filed ∷ []

unfoldable pub listing_words : Listing → List (List ℕ)
listing_words (keys pattern_) = bytes "keys" ∷ pattern_ ∷ []
listing_words (lrange key start end) = bytes "lrange" ∷ key ∷ int_text start ∷ int_text end ∷ []
listing_words (zrange key start end withscore) =
    if withscore
    then bytes "zrange" ∷ key ∷ int_text start ∷ int_text end ∷ bytes "withscores" ∷ []
    else bytes "zrange" ∷ key ∷ int_text start ∷ int_text end ∷ []

-- The code, and the string of the caller, which keeps its value where the code is not positive.
unfoldable pub query :
    List Answer
    → List Received
    → Query
    → List ℕ
    → RedisConnect
    → Option (Code × List ℕ × RedisConnect)
unfolding execute_into query_words first_of
query outgoing incoming q val redis = do
  (code, vec, redis') ← execute_into outgoing incoming [] (query_words q) redis
  val' ← first_of code vec val
  some (code, val', redis')

unfoldable pub listing :
    List Answer
    → List Received
    → Listing
    → List (List ℕ)
    → RedisConnect
    → Option (Code × List (List ℕ) × RedisConnect)
unfolding execute_into listing_words
listing outgoing incoming l vec redis = execute_into outgoing incoming vec (listing_words l) redis

-- An empty password needs no reply.
unfoldable pub auth :
    List Answer → List Received → List ℕ → RedisConnect → Option (ℤ × RedisConnect)
unfolding execute code_number
auth outgoing incoming passwd redis =
    let redis1 : RedisConnect = record redis { passwd = passwd } in
    if length passwd == 0 then some (pos 1, redis1) else (do
      (code, redis') ← execute outgoing incoming (bytes "auth" ∷ passwd ∷ []) redis1
      some (code_number code, redis'))
