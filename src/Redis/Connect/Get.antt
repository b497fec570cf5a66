-- ===== src/Redis/Connect/Get.antt =====
-- A command that reads one element: the words that go out, and the value that comes back.
use talib.Prelude.{
  bytes, ℕ, ◌≤◌, ◌<◌, ◌≡◌, refl, sym, ap, ◌∙◌, true, Option, none, some, List, [], ◌∷◌, ◌++◌, arith,
  length, All, pos,
}
use talib.Redis.Command.{Code, ok, notfound, Command, to_string}
use talib.Redis.Command.Reply.{item_text}
use talib.Redis.Command.Whole.{IsWhole, nil_text, element-IsWhole, nil-IsWhole}
use talib.Redis.Socket.{Answer, completed, write}
use talib.Redis.Socket.Moves.{write-completed}
use talib.Redis.Connect.{
  Received, receive, RedisConnect, do_work, get_result, error_text, command_of, execute_into,
  first_of,
}
use talib.Redis.Connect.Commands.{Query, query_words, query}
use talib.Redis.Connect.Chunks.{text_of, wait_of, is_part, receive-IsWhole}

-- The reply to such a command: an element, or that there is none.
abbrev pub reply_text : Option (List ℕ) → List ℕ
reply_text none = nil_text
reply_text (some item) = b'$' ∷ item_text item []

abbrev pub reply_code : Option (List ℕ) → Code
reply_code none = notfound
reply_code (some item) = ok

abbrev pub value_or : List ℕ → Option (List ℕ) → List ℕ
value_or val none = val
value_or val (some item) = item

abbrev pub stored : Option (List ℕ) → Command → Command
stored none c = c
stored (some item) c = record c { res = c.res ++ item ∷ [] }

reply-IsWhole :
    (reply : Option (List ℕ)) (c : Command)
    → IsWhole (reply_text reply) c (reply_code reply) (stored reply c)
reply-IsWhole none c = nil-IsWhole c
reply-IsWhole (some item) c = element-IsWhole c item

abbrev pub message_of : Option (List ℕ) → List ℕ
message_of none = bytes "element not found"
message_of (some item) = []

reply_some : (reply : Option (List ℕ)) → 0 < length (reply_text reply)
reply_some none = omega arith
reply_some (some item) = omega arith

-- What the caller gets once the command has been worked off.
query-do_work :
    (reply : Option (List ℕ)) (outgoing : List Answer) (incoming : List Received) (q : Query)
    (redis : RedisConnect) (val sent : List ℕ)
    → do_work outgoing incoming (command_of (query_words q)) redis
      ≡ some (reply_code reply, stored reply (command_of (query_words q)), sent)
    → (redis' : RedisConnect) × (query outgoing incoming q val redis
        ≡ some (reply_code reply, value_or val reply, redis'))
      × (redis'.sent ≡ redis.sent ++ sent)
      × (redis'.msg ≡ message_of reply)
unfolding query execute_into get_result command_of first_of error_text
query-do_work none outgoing incoming q redis val sent h = (
  record redis {
    code = notfound;
    status = pos 0;
    msg = bytes "element not found";
    sent = redis.sent ++ sent;
  },
  rw h refl,
  refl,
  refl,
)
query-do_work (some item) outgoing incoming q redis val sent h = (
  record redis { code = ok; status = pos 0; msg = []; sent = redis.sent ++ sent },
  rw h refl,
  refl,
  refl,
)

module _ (outgoing : List Answer) (incoming : List Received) (q : Query) (redis : RedisConnect)
    (reply : Option (List ℕ)) (sent : List ℕ)
    (w : write 0 outgoing (to_string (command_of (query_words q))) [] ≡ some (completed, sent))
    (parts : All (λ a. is_part a ≡ true) incoming) (whole : text_of incoming ≡ reply_text reply)
    (fits : length (reply_text reply) ≤ redis.memsz)
    (in_time : wait_of incoming ≤ redis.limit) where
  received :
      (c : Command)
      → receive redis.memsz redis.limit incoming 0 [] c ≡ some (reply_code reply, stored reply c)
  received c =
      receive-IsWhole redis.memsz redis.limit (reply_text reply) c (reply_code reply)
        (stored reply c) (reply-IsWhole reply c) fits incoming 0 [] parts (sym whole)
        (reply_some reply) (omega (arith, in_time))

  worked :
      do_work outgoing incoming (command_of (query_words q)) redis
      ≡ some (reply_code reply, stored reply (command_of (query_words q)), sent)
  unfolding do_work
  worked = rw (w, received (command_of (query_words q))) refl

  -- When the socket takes the whole command, its words go out as one request. When the reply is an
  -- element or says that there is none, fits the buffer of the connection, and comes in any parts that
  -- are not empty, with time-outs between them that add up to no more than the limit, the caller gets
  -- the element, or the code and message that there is none and its own string as it was.
  pub query_lem :
      (val : List ℕ)
      → (redis' : RedisConnect) × (query outgoing incoming q val redis
          ≡ some (reply_code reply, value_or val reply, redis'))
        × (redis'.sent ≡ redis.sent ++ to_string (command_of (query_words q)))
        × (redis'.msg ≡ message_of reply)
  query_lem val =
      let (redis', d, s, m) = query-do_work reply outgoing incoming q redis val sent worked in
      (
        redis',
        d,
        s
            ∙ ap (λ z. redis.sent ++ z)
                (write-completed outgoing 0 (to_string (command_of (query_words q))) [] sent w),
        m,
      )
