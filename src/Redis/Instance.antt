-- ===== src/Redis/Instance.antt =====
-- src/Redis/ResPool.h, RedisConnect.h, RedisCache.cpp: how a caller gets a connection out of the pool,
-- with the attempts of `get` as they follow each other, and the cache that uses it. `none` is a call
-- that needs one more attempt, one more call, or an answer that does not come.
pub mod Waits
pub mod Usable
pub mod Cached
mod Tests
use talib.Prelude.{
  ℕ, zero, suc, ◌+◌, Bool, false, not, Option, none, some, List, [], ◌∷◌, ltb, ◌==◌, if◌then◌else◌,
  ◌>>=◌, ◌>>◌, ℤ, pos, negsuc, magnitude,
}
use talib.Redis.Socket.{Answer}
use talib.Redis.ResPool.{ResPool, grasp, disable}
use talib.Redis.Connect.{RedisConnect, Received}
use talib.Redis.Connect.Commands.{auth, set, get, run, query, code_number, is_ok}

-- What one attempt meets: the time, who uses the resources, what `func` makes, and the time at which
-- `get` looks at the clock after it.
pub record Attempt : Type 0 where
  pub now : ℕ
  pub unique : ℕ → Bool
  pub created : Option ℕ
  pub later : ℕ

-- The loop of `get`, with the attempts that are left when it ends.
unfoldable pub wait : ℕ → List Attempt → ResPool → Option (Option ℕ × ResPool × List Attempt)
wait endtime [] p = none
wait endtime (a ∷ attempts) p = do
  (r, p') ← grasp a.now a.unique a.created p
  let again = wait endtime attempts p'
  elim r [
    | some d ↦ some (some d, p', attempts)
    | none ↦ if ltb endtime a.later then some (none, p', attempts) else again
  ]

-- A pool without a timeout keeps nothing.
unfoldable pub pool_get : List Attempt → ResPool → Option (Option ℕ × ResPool × List Attempt)
unfolding wait
pool_get [] p = none
pool_get (a ∷ attempts) p = if p.timeout == 0 then some (a.created, p, attempts) else (do
  (r, p') ← grasp a.now a.unique a.created p
  elim r [ some d ↦ some (some d, p', attempts) | none ↦ wait (a.later + 3) attempts p' ])

-- What a call has come to after some of its calls of itself: a result, or one more call, with the
-- attempts that are left.
pub data Grasped : Type 0 where
  returns : Option ℕ → ResPool → Grasped
  calls_again : List Attempt → ResPool → Grasped

-- `RedisConnect::grasp`, which calls itself; `broken` says which connections have an error code, and
-- the fuel is how deep the calls are followed.
unfoldable pub grasp_connection : ℕ → (ℕ → Bool) → List Attempt → ResPool → Option Grasped
unfolding pool_get
grasp_connection zero broken attempts p = some (calls_again attempts p)
grasp_connection (suc fuel) broken attempts p = do
  (r, p', left) ← pool_get attempts p
  elim r [
    | none ↦ some (returns none p')
    | some d ↦
        let again = grasp_connection fuel broken left (disable d p') in
        if broken d then again else some (returns (some d) p')
  ]

-- What `func` makes: `redis` is the new connection, and `connected` whether `connect` succeeds.
unfoldable pub create_connection :
    Bool → List Answer → List Received → List ℕ → RedisConnect → Option (Option RedisConnect)
unfolding auth
create_connection connected outgoing incoming passwd redis =
    if connected
    then (do
      (code, redis') ← auth outgoing incoming passwd redis
      some (if magnitude code == 0 then none else some redis'))
    else some none

-- `getErrorCode`.
unfoldable pub get_error_code : Bool → RedisConnect → ℤ
get_error_code closed redis =
    if closed
    then negsuc 0
    else elim (code_number redis.code) [ pos n ↦ pos 0 | negsuc n ↦ negsuc n ]

-- `result == RedisConnect::PARAMERR`.
abbrev pub is_parameter_error : ℤ → Bool
is_parameter_error (pos n) = false
is_parameter_error (negsuc n) = n == 7

-- RedisCache. `Instance` may give no connection, and the code uses it all the same.
unfoldable pub cache_set :
    List Answer
    → List Received
    → List ℕ
    → List ℕ
    → Option RedisConnect
    → Option (Bool × RedisConnect)
cache_set outgoing incoming key value none = none
cache_set outgoing incoming key value (some redis) = do
  (result, redis') ← run outgoing incoming (set key value (pos 0)) redis
  some (not (is_parameter_error result), redis')

unfoldable pub cache_get :
    List Answer
    → List Received
    → List ℕ
    → List ℕ
    → Option RedisConnect
    → Option (Bool × List ℕ × RedisConnect)
cache_get outgoing incoming key value none = none
cache_get outgoing incoming key value (some redis) = do
  (result, value', redis') ← query outgoing incoming (get key) value redis
  some (is_ok result, value', redis')
