-- ===== src/Redis/Connect/Tests.antt =====
-- A value that comes in three parts, a key that is not there, and a reply that stays away.
use talib.Prelude.{
  decimal, read_digits, bytes, ℕ, ◌≡◌, refl, some, List, [], ◌∷◌, ◌++◌, arith, ◌>>=◌, pos,
}
use talib.Redis.Command.{ok, to_string, elements_text, parse, parse_node, line_end, atoi}
use talib.Redis.Socket.{moved, completed, write}
use talib.Redis.Connect.{
  Received, arrived, waits, RedisConnect, command_of, execute, get_result, do_work, receive,
  error_text,
}
use talib.Redis.Connect.Commands.{get, query_words, query, ttl, run, words_of, code_number}
use talib.Redis.Connect.Get.{query_lem}

abbrev redis : RedisConnect
redis = record {
  code = ok;
  status = pos 0;
  msg = [];
  memsz = 1000;
  limit = 30;
  passwd = [];
  sent = [];
}

-- "get" of "k", as it goes out.
abbrev request : List ℕ
request =
    bytes "*2"
    ++ 13
      ∷ 10
      ∷ (bytes "$3"
          ++ 13
            ∷ 10
            ∷ (bytes "get" ++ 13 ∷ 10 ∷ (bytes "$1" ++ 13 ∷ 10 ∷ (bytes "k" ++ 13 ∷ 10 ∷ []))))

went_out :
    write 0 (moved 100 ∷ []) (to_string (command_of (query_words (get (bytes "k"))))) []
    ≡ some (completed, request)
unfolding write to_string elements_text command_of query_words decimal
went_out = refl

-- "$2", CRLF, "hi", CRLF.
abbrev parts : List Received
parts =
    arrived (bytes "$2") ∷ waits ∷ arrived (13 ∷ []) ∷ arrived (10 ∷ 104 ∷ 105 ∷ 13 ∷ 10 ∷ []) ∷ []

query_lem_example :
    (redis' : RedisConnect) × (query (moved 100 ∷ []) parts (get (bytes "k")) (bytes "old") redis
      ≡ some (ok, bytes "hi", redis'))
    × (redis'.sent ≡ to_string (command_of (query_words (get (bytes "k")))))
    × (redis'.msg ≡ [])
unfolding decimal
query_lem_example =
    query_lem (moved 100 ∷ []) parts (get (bytes "k")) redis (some (bytes "hi")) request went_out
      (refl, (refl, (refl, (refl, tt)))) refl (omega arith) (omega arith) (bytes "old")

-- The number of a reply is what `ttl` returns.
lifetime :
    (do
      (n, redis') ←
          run
            (moved 100 ∷ [])
            (arrived (bytes ":7") ∷ arrived (13 ∷ 10 ∷ []) ∷ [])
            (ttl (bytes "k"))
            redis
      some n)
    ≡ some (pos 7)
unfolding run execute get_result do_work receive error_text words_of code_number write to_string
    elements_text command_of decimal parse parse_node line_end atoi read_digits
lifetime = refl

stays_away :
    (do
      (n, redis') ←
          run (moved 100 ∷ []) (waits ∷ waits ∷ waits ∷ waits ∷ []) (ttl (bytes "k")) redis
      some redis'.msg)
    ≡ some (bytes "response timeout")
unfolding run execute get_result do_work receive error_text words_of code_number write to_string
    elements_text command_of decimal parse parse_node line_end atoi read_digits
stays_away = refl
