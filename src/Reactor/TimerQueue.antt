-- ===== src/Reactor/TimerQueue.antt =====
-- src/Reactor/TimerQueue.cpp, Timer.h, Timer.cpp and TimerId.h: the timers of a loop. A timer is
-- known by its address; `timers_of` has the live ones. `none` is a failed assertion or a pointer to a
-- deleted timer. Times are microseconds, and an interval is what `addTime` adds.
pub mod Valid
pub mod Leave
pub mod Expiry
pub mod Restart
pub mod Round
mod Tests
use talib.Prelude.{
  ℕ, ◌+◌, ◌-◌, ◌^◌, Bool, true, false, not, ◌&&◌, Option, none, some, List, [], ◌∷◌, ltb, ◌==◌,
  if◌then◌else◌, ◌>>=◌, ◌>>◌, assert, length, find, insert, erase,
}
use talib.Prelude.PairSet.{Pair, precedes, has, set_insert, set_erase, put_in}

pub record Timer : Type 0 where
  pub expiration : ℕ
  pub interval : ℕ
  pub repeat : Bool
  pub sequence : ℕ

-- A timer that does not repeat gets the invalid time.
unfoldable pub restart : ℕ → Timer → Timer
restart now t = record t { expiration = if t.repeat then now + t.interval else 0 }

-- `timers` holds times with addresses, `active` and `canceling` addresses with sequence numbers, and
-- `alarm` the time that the descriptor was last set to.
pub record TimerQueue : Type 0 where
  pub timers_of : List (ℕ × Timer)
  pub timers : List Pair
  pub active : List Pair
  pub calling_expired : Bool
  pub canceling : List Pair
  pub alarm : Option ℕ

unfoldable pub new_timer_queue : TimerQueue
new_timer_queue = record {
  timers_of = [];
  timers = [];
  active = [];
  calling_expired = false;
  canceling = [];
  alarm = none;
}

abbrev pub same_size : TimerQueue → Bool
same_size q = length q.timers == length q.active

abbrev pub is_earliest : ℕ → List Pair → Bool
is_earliest time [] = true
is_earliest time (e ∷ timers) = ltb time e.0

-- `insert`: whether the timer is now the first to expire, and the queue with it.
unfoldable pub insert_timer : ℕ → TimerQueue → Option (Bool × TimerQueue)
insert_timer timer q = do
  t ← find timer q.timers_of
  assert (same_size q)
  timers ← set_insert (t.expiration, timer) q.timers
  active ← set_insert (timer, t.sequence) q.active
  let q' : TimerQueue = record q { timers = timers; active = active }
  assert (same_size q')
  some (is_earliest t.expiration q.timers, q')

unfoldable pub add_timer_in_loop : ℕ → TimerQueue → Option TimerQueue
unfolding insert_timer
add_timer_in_loop timer q = do
  t ← find timer q.timers_of
  (earliest_changed, q') ← insert_timer timer q
  some (if earliest_changed then record q' { alarm = some t.expiration } else q')

-- In the loop's own thread; `new` has given the address.
unfoldable pub add_timer : ℕ → Timer → TimerQueue → Option TimerQueue
unfolding add_timer_in_loop
add_timer timer t q = add_timer_in_loop timer (record q { timers_of = insert timer t q.timers_of })

-- The timer is deleted and leaves `timers`, and stays in `active`.
unfoldable pub cancel_in_loop : Pair → TimerQueue → Option TimerQueue
cancel_in_loop id q = do
  assert (same_size q)
  q' ←
      (if has id q.active
        then (do
          t ← find id.0 q.timers_of
          timers ← set_erase (t.expiration, id.0) q.timers
          some (record q { timers = timers; timers_of = erase id.0 q.timers_of }))
        else if q.calling_expired
        then some (record q {
          canceling = if has id q.canceling then q.canceling else put_in id q.canceling;
        })
        else some q)
  assert (same_size q')
  some q'

-- `UINTPTR_MAX`.
abbrev pub max_address : ℕ
max_address = 2 ^ 64 - 1

-- The entries before `lower_bound` of the sentry, and those behind.
unfoldable pub split_before : Pair → List Pair → List Pair × List Pair
split_before sentry [] = ([], [])
split_before sentry (e ∷ timers) =
    let later : List Pair × List Pair =
      (e ∷ (split_before sentry timers).0, (split_before sentry timers).1) in
    if precedes e sentry then later else ([], e ∷ timers)

abbrev pub is_later : ℕ → List Pair → Bool
is_later now [] = true
is_later now (e ∷ timers) = ltb now e.0

-- The loop that takes the expired timers out of `active`.
unfoldable pub leave_active : List (ℕ × Timer) → List Pair → List Pair → Option (List Pair)
leave_active timers_of [] active = some active
leave_active timers_of (e ∷ expired) active = do
  t ← find e.1 timers_of
  active' ← set_erase (e.1, t.sequence) active
  leave_active timers_of expired active'

unfoldable pub get_expired : ℕ → TimerQueue → Option (List Pair × TimerQueue)
unfolding split_before leave_active
get_expired now q = do
  let (expired, timers) = split_before (now, max_address) q.timers
  assert (is_later now timers)
  active ← leave_active q.timers_of expired q.active
  let q' : TimerQueue = record q { timers = timers; active = active }
  assert (same_size q')
  some (expired, q')

-- The loop of `reset`: a timer that repeats and was not cancelled starts again, any other is
-- deleted.
unfoldable pub restart_all : ℕ → List Pair → TimerQueue → Option TimerQueue
unfolding insert_timer restart
restart_all now [] q = some q
restart_all now (e ∷ expired) q = do
  t ← find e.1 q.timers_of
  q' ←
      (if t.repeat && not (has (e.1, t.sequence) q.canceling)
        then (do
          (changed, q1) ←
              insert_timer e.1 (record q { timers_of = insert e.1 (restart now t) q.timers_of })
          some q1)
        else some (record q { timers_of = erase e.1 q.timers_of }))
  restart_all now expired q'

-- The alarm for the first timer that is left, if its time is valid.
unfoldable pub reset : ℕ → List Pair → TimerQueue → Option TimerQueue
unfolding restart_all
reset now expired q = do
  q' ← restart_all now expired q
  elim q'.timers [
    | [] ↦ some q'
    | ◌∷◌ e timers ↦ do
      t ← find e.1 q'.timers_of
      some (if ltb 0 t.expiration then record q' { alarm = some t.expiration } else q')
  ]

-- What a callback may ask of the queue.
pub data Request : Type 0 where
  adds : ℕ → Timer → Request
  cancels : Pair → Request

unfoldable pub answer : List Request → TimerQueue → Option TimerQueue
unfolding add_timer cancel_in_loop
answer [] q = some q
answer (adds timer t ∷ rs) q = do q' ← add_timer timer t q; answer rs q'
answer (cancels id ∷ rs) q = do q' ← cancel_in_loop id q; answer rs q'

-- The callbacks of the expired timers, one after the other.
unfoldable pub run_all : (ℕ → List Request) → List Pair → TimerQueue → Option TimerQueue
unfolding answer
run_all callback [] q = some q
run_all callback (e ∷ expired) q = do
  t ← find e.1 q.timers_of
  q' ← answer (callback e.1) q
  run_all callback expired q'

unfoldable pub handle_read : ℕ → (ℕ → List Request) → TimerQueue → Option TimerQueue
unfolding get_expired run_all reset
handle_read now callback q = do
  (expired, q1) ← get_expired now q
  q2 ← run_all callback expired (record q1 { calling_expired = true; canceling = [] })
  reset now expired (record q2 { calling_expired = false })
