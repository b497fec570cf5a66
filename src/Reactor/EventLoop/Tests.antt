-- ===== src/Reactor/EventLoop/Tests.antt =====
-- A loop with a functor that leaves two more, and one functor left by another thread.
use talib.Prelude.{ℕ, ◌≡◌, refl, true, false, some, List, [], ◌∷◌, ◌==◌, if◌then◌else◌}
use talib.Reactor.EventLoop.{
  EventLoop, wakes, leaves, quits, loop, rounds, handle_all, quit, do_pending_functors, call_all,
  call, queue_all, queue_in_loop, push_back, wakeup, handle_read,
}
use talib.Reactor.EventLoop.Wakeup.{polling, World, Step, Steps, IsAwake, Steps-IsAwake}

abbrev idle : EventLoop
idle = record {
  looping = false;
  quitting = false;
  calling_pending_functors = false;
  pending_functors = [];
  wakeups = 0;
  ran = [];
}

abbrev two_more : ℕ → List ℕ
two_more f = if f == 1 then 5 ∷ 6 ∷ [] else []

abbrev waiting : EventLoop
waiting = record idle { looping = true; pending_functors = 1 ∷ 2 ∷ []; wakeups = 1 }

-- The second round runs what the first left, and the third never comes.
looped :
    loop two_more
      ((wakes ∷ leaves (1 ∷ []) ∷ []) ∷ (wakes ∷ quits ∷ []) ∷ (leaves (7 ∷ []) ∷ []) ∷ [])
      idle
    ≡ some (record idle { quitting = true; ran = 1 ∷ 5 ∷ 6 ∷ [] })
unfolding loop rounds handle_all quit do_pending_functors call_all call queue_all queue_in_loop
    push_back wakeup handle_read
looped = refl

abbrev at_rest : World
at_rest = record { l = idle; phase = polling; in_flight = 0; asked = [] }

at_rest-IsAwake : IsAwake at_rest
at_rest-IsAwake = record { flag = refl; in_order = refl; woken = λ h k. k }

abbrev served : World
served = record {
  l = record idle { pending_functors = 5 ∷ 6 ∷ []; wakeups = 3; ran = 1 ∷ [] };
  phase = polling;
  in_flight = 0;
  asked = 1 ∷ 5 ∷ 6 ∷ [];
}

Steps-IsAwake_example : IsAwake served
unfolding push_back wakeup handle_read call queue_all queue_in_loop
Steps-IsAwake_example =
    Steps-IsAwake two_more
      (Steps.next
        {v = record { l = push_back 1 idle; phase = polling; in_flight = 1; asked = 1 ∷ [] }}
        (Step.pushes 1)
        (Steps.next (Step.returns) (
          Steps.next Step.drains (
            Steps.next (Step.wakes {n = 0})
              (Steps.next Step.takes (Steps.next Step.calls (Steps.next Step.ends Steps.done)))))))
      at_rest-IsAwake
