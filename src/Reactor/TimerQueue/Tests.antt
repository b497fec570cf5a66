-- ===== src/Reactor/TimerQueue/Tests.antt =====
-- The timers at small queues.
use talib.Prelude.{
  map, leb, ◌≡◌, refl, sym, ◌∙◌, subst, true, false, none, some, List, [], ◌∷◌, ◌++◌, All, find,
  insert,
}
use mathlib.Core.Option.{some-injective}
use talib.Prelude.PairSet.{Pair, has, put_in, taken_out, set_insert, set_erase}
use talib.Reactor.TimerQueue.{
  cancels, Timer, TimerQueue, new_timer_queue, add_timer, insert_timer, add_timer_in_loop,
  cancel_in_loop, get_expired, split_before, leave_active, handle_read, run_all, answer, reset,
  restart_all, restart,
}
use talib.Reactor.TimerQueue.Valid.{
  AllIdle, IsDistinct, IsValid, new_timer_queue-IsValid, add_timer-IsValid,
}
use talib.Reactor.TimerQueue.Round.{handle_read-IsValid}
use talib.Reactor.TimerQueue.Expiry.{is_due, get_expired-IsValid, cancel_in_loop_lem}

abbrev once : Timer
once = record { expiration = 50; interval = 0; repeat = false; sequence = 1 }

abbrev each : Timer
each = record { expiration = 20; interval = 30; repeat = true; sequence = 2 }

abbrev one_timer : TimerQueue
one_timer = record {
  timers_of = (7, once) ∷ [];
  timers = (50, 7) ∷ [];
  active = (7, 1) ∷ [];
  calling_expired = false;
  canceling = [];
  alarm = some 50;
}

abbrev two_timers : TimerQueue
two_timers = record {
  timers_of = (7, once) ∷ (8, each) ∷ [];
  timers = (20, 8) ∷ (50, 7) ∷ [];
  active = (7, 1) ∷ (8, 2) ∷ [];
  calling_expired = false;
  canceling = [];
  alarm = some 20;
}

add_once : add_timer 7 once new_timer_queue ≡ some one_timer
unfolding add_timer add_timer_in_loop insert_timer new_timer_queue set_insert has put_in insert find
add_once = refl

add_each : add_timer 8 each one_timer ≡ some two_timers
unfolding add_timer add_timer_in_loop insert_timer set_insert has put_in insert find
add_each = refl

one_timer-IsValid : IsValid one_timer
unfolding new_timer_queue find
one_timer-IsValid =
    let r = add_timer-IsValid 7 new_timer_queue new_timer_queue-IsValid refl once refl in
    subst IsValid (some-injective _ _ (sym r.1 ∙ add_once)) r.2

two_timers-IsValid : IsValid two_timers
unfolding find
two_timers-IsValid =
    let r = add_timer-IsValid 8 one_timer one_timer-IsValid refl each refl in
    subst IsValid (some-injective _ _ (sym r.1 ∙ add_each)) r.2

add_timer-IsValid_example :
    (q' : TimerQueue) × (add_timer 8 each one_timer ≡ some q')
    × IsValid q'
    × (q'.timers ≡ put_in (20, 8) ((50, 7) ∷ []))
    × (q'.active ≡ put_in (8, 2) ((7, 1) ∷ []))
    × (find 8 q'.timers_of ≡ some each)
    × (q'.alarm ≡ some 20)
unfolding find
add_timer-IsValid_example = add_timer-IsValid 8 one_timer one_timer-IsValid refl each refl

get_expired-IsValid_example :
    (expired : List Pair) × (q' : TimerQueue) × (get_expired 20 two_timers ≡ some (expired, q'))
    × (expired ++ q'.timers ≡ (20, 8) ∷ (50, 7) ∷ [])
    × All (λ e. is_due 20 e ≡ true) expired
    × All (λ e. is_due 20 e ≡ false) q'.timers
    × IsValid q'
    × AllIdle expired q'
    × IsDistinct expired
    × (q'.timers_of ≡ two_timers.timers_of)
get_expired-IsValid_example = get_expired-IsValid 20 two_timers two_timers-IsValid

cancel_in_loop_lem_example : cancel_in_loop (8, 2) two_timers ≡ none
unfolding has
cancel_in_loop_lem_example = cancel_in_loop_lem (8, 2) two_timers two_timers-IsValid

-- The timer that repeats starts again at the time of its expiry, behind the other.
handled :
    handle_read 25 (λ _. []) two_timers
    ≡ some (record two_timers {
      timers_of = (7, once) ∷ (8, record each { expiration = 55 }) ∷ [];
      timers = (50, 7) ∷ (55, 8) ∷ [];
      alarm = some 50;
    })
unfolding handle_read get_expired split_before leave_active run_all answer reset restart_all restart
    insert_timer set_insert set_erase has put_in taken_out insert find
handled = refl

-- The timer that is due cancels itself.
handle_read-IsValid_example :
    (q' : TimerQueue) × (handle_read 25 (λ p. map cancels ((8, 2) ∷ [])) two_timers ≡ some q')
    × IsValid q'
unfolding find
handle_read-IsValid_example =
    handle_read-IsValid 25 (λ p. (8, 2) ∷ []) two_timers two_timers-IsValid
      (λ p. (λ t h. subst (λ z. leb z.expiration 25 ≡ true) (some-injective _ _ h) refl, tt))
