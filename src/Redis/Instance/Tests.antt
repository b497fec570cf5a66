-- ===== src/Redis/Instance/Tests.antt =====
-- A pool whose server refuses the password, and a cache whose socket is closed.
use talib.Prelude.{
  decimal, read_digits, bytes, ℕ, ◌≡◌, refl, Bool, true, false, none, some, [], ◌∷◌, ◌++◌, arith,
  ◌==◌, ◌>>=◌, pos, negsuc,
}
use talib.Redis.Command.{ok, to_string, elements_text, parse, parse_node, line_end, atoi}
use talib.Redis.Socket.{moved, write}
use talib.Redis.ResPool.{ResPool, grasp, search, store, scan, disable, disabled, disabled}
use talib.Redis.Connect.{
  arrived, RedisConnect, execute, get_result, do_work, receive, error_text, command_of,
}
use talib.Redis.Connect.Commands.{auth, code_number}
use talib.Redis.Instance.{
  returns, calls_again, Attempt, wait, pool_get, grasp_connection, create_connection,
  get_error_code, disable,
}
use talib.Redis.Instance.Waits.{Returns, pool_get-Returns}
use talib.Redis.Instance.Usable.{IsVacant, grasp_connection-works, refused_recurs}

abbrev fresh : RedisConnect
fresh = record {
  code = ok;
  status = pos 0;
  msg = [];
  memsz = 1000;
  limit = 30;
  passwd = [];
  sent = [];
}

-- The connection that `func` gives although the reply to "auth" is an error, with its error code.
refused :
    (do
      created ←
          create_connection true
            (moved 100 ∷ [])
            (arrived (bytes "-ERR" ++ 13 ∷ 10 ∷ []) ∷ [])
            (bytes "wrong")
            fresh
      redis ← created
      some (get_error_code false redis))
    ≡ some (negsuc 0)
unfolding create_connection auth get_error_code execute get_result do_work receive error_text
    code_number write to_string elements_text command_of decimal parse parse_node line_end atoi
    read_digits
refused = refl

abbrev pool : ResPool
pool = record { maxlen = 8; timeout = 60; vec = [] }

abbrev nobody : ℕ → Bool
nobody d = true

abbrev makes : ℕ → Attempt
makes d = record { now = 1000; unique = nobody; created = some d; later = 1000 }

abbrev makes_nothing : ℕ → Attempt
makes_nothing t = record { now = t; unique = nobody; created = none; later = t }

pool_get-Returns_example :
    Returns (pool_get (makes_nothing 1000 ∷ makes_nothing 1002 ∷ makes_nothing 1004 ∷ []) pool)
pool_get-Returns_example =
    pool_get-Returns (makes_nothing 1000) (makes_nothing 1002 ∷ makes_nothing 1004 ∷ []) pool
      (omega arith) refl

abbrev is_first : ℕ → Bool
is_first d = d == 1

abbrev second_works : ResPool
second_works = record pool { vec = record { num = 0; utime = 1000; data_ = some 2 } ∷ [] }

second_try :
    grasp_connection 2 is_first (makes 1 ∷ makes 2 ∷ []) pool ≡ some (returns (some 2) second_works)
unfolding grasp_connection pool_get wait grasp search store scan disable disabled
second_try = refl

grasp_connection-works_example : is_first 2 ≡ false
grasp_connection-works_example =
    grasp_connection-works 2 is_first (makes 1 ∷ makes 2 ∷ []) pool second_works 2 second_try

refused_recurs_example :
    (p' : ResPool) × (grasp_connection 3 is_first (makes 1 ∷ makes 1 ∷ makes 1 ∷ makes 1 ∷ []) pool
      ≡ some (calls_again (makes 1 ∷ []) p'))
    × IsVacant p'.vec
refused_recurs_example =
    refused_recurs 3 is_first (makes 1 ∷ makes 1 ∷ makes 1 ∷ makes 1 ∷ []) pool refl (omega arith)
      (omega arith) refl (omega arith)
