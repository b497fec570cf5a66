-- ===== src/Redis/Instance/Cached.antt =====
-- What `set` of RedisCache says when its command did not go out.
use talib.Prelude.{bytes, ℕ, ◌≡◌, refl, Bool, true, false, some, List, [], ◌++◌, pos}
use talib.Redis.Command.{Code, Command, to_string}
use talib.Redis.Socket.{Answer, Outcome, completed, write}
use talib.Redis.Connect.{
  Received, RedisConnect, execute, get_result, do_work, command_of, error_text,
}
use talib.Redis.Connect.Commands.{set, run, words_of, code_number}
use talib.Redis.Instance.{cache_set}

abbrev pub is_completed : Outcome → Bool
is_completed completed = true
is_completed Outcome.timeout = false
is_completed Outcome.neterr = false
is_completed Outcome.netclose = false

unsent :
    (outgoing : List Answer) (incoming : List Received) (c : Command) (redis : RedisConnect)
    (outcome : Outcome) (sent : List ℕ)
    → write 0 outgoing (to_string c) [] ≡ some (outcome, sent)
    → is_completed outcome ≡ false
    → do_work outgoing incoming c redis ≡ some (Code.neterr, c, sent)
unfolding do_work
unsent outgoing incoming c redis completed sent w h = absurd (cc h)
unsent outgoing incoming c redis Outcome.timeout sent w h = rw w refl
unsent outgoing incoming c redis Outcome.neterr sent w h = rw w refl
unsent outgoing incoming c redis Outcome.netclose sent w h = rw w refl

-- When the socket does not take the whole command, because it is closed, fails or takes too long, the
-- server has not got it, the connection reads no reply and keeps the message "network error", and
-- `set` of the cache reports success.
pub cache_set-unsent :
    (outgoing : List Answer) (incoming : List Received) (key value : List ℕ) (redis : RedisConnect)
    (outcome : Outcome) (sent : List ℕ)
    → write 0 outgoing (to_string (command_of (words_of (set key value (pos 0))))) []
      ≡ some (outcome, sent)
    → is_completed outcome ≡ false
    → (redis' : RedisConnect) × (cache_set outgoing incoming key value (some redis)
        ≡ some (true, redis'))
      × (redis'.msg ≡ bytes "network error")
      × (redis'.sent ≡ redis.sent ++ sent)
unfolding cache_set run execute get_result command_of words_of error_text code_number
cache_set-unsent outgoing incoming key value redis outcome sent w h =
    let u =
      unsent outgoing incoming (command_of (words_of (set key value (pos 0)))) redis outcome sent w
        h in
    (
      record redis {
        code = Code.neterr;
        status = pos 0;
        msg = bytes "network error";
        sent = redis.sent ++ sent;
      },
      rw u refl,
      refl,
      refl,
    )
