-- ===== src/Reactor/EventLoop.antt =====
-- src/Reactor/EventLoop.h and EventLoop.cpp: the functors that are left to a loop, and its rounds.
-- A functor is a number; `body` says which functors it leaves to the same loop when it runs.
-- `none` is a failed assertion.
pub mod Pending
pub mod Wakeup
mod Tests
use talib.Prelude.{
  ℕ, ◌+◌, Bool, true, false, not, ◌||◌, Option, some, List, [], ◌∷◌, ◌++◌, if◌then◌else◌, ◌>>=◌,
  ◌>>◌, assert,
}

-- `wakeups` is the counter of the event descriptor, and `ran` the functors that ran, the oldest
-- first.
pub record EventLoop : Type 0 where
  pub looping : Bool
  pub quitting : Bool
  pub calling_pending_functors : Bool
  pub pending_functors : List ℕ
  pub wakeups : ℕ
  pub ran : List ℕ

unfoldable pub wakeup : EventLoop → EventLoop
wakeup l = record l { wakeups = l.wakeups + 1 }

-- Reading an event descriptor takes the whole count.
unfoldable pub handle_read : EventLoop → EventLoop
handle_read l = record l { wakeups = 0 }

unfoldable pub push_back : ℕ → EventLoop → EventLoop
push_back f l = record l { pending_functors = l.pending_functors ++ f ∷ [] }

unfoldable pub queue_in_loop : Bool → ℕ → EventLoop → EventLoop
unfolding push_back wakeup
queue_in_loop in_loop_thread f l =
    if not in_loop_thread || l.calling_pending_functors
    then wakeup (push_back f l)
    else push_back f l

-- The functors that a callback leaves to its own loop.
unfoldable pub queue_all : List ℕ → EventLoop → EventLoop
unfolding queue_in_loop
queue_all [] l = l
queue_all (f ∷ fs) l = queue_all fs (queue_in_loop true f l)

unfoldable pub call : (ℕ → List ℕ) → ℕ → EventLoop → EventLoop
unfolding queue_all
call body f l = queue_all (body f) (record l { ran = l.ran ++ f ∷ [] })

unfoldable pub run_in_loop : (ℕ → List ℕ) → Bool → ℕ → EventLoop → EventLoop
unfolding call queue_in_loop
run_in_loop body in_loop_thread f l =
    if in_loop_thread then call body f l else queue_in_loop false f l

unfoldable pub call_all : (ℕ → List ℕ) → List ℕ → EventLoop → EventLoop
unfolding call
call_all body [] l = l
call_all body (f ∷ fs) l = call_all body fs (call body f l)

unfoldable pub do_pending_functors : (ℕ → List ℕ) → EventLoop → EventLoop
unfolding call_all
do_pending_functors body l =
    let called : EventLoop =
      call_all body l.pending_functors
        (record l { calling_pending_functors = true; pending_functors = [] }) in
    record called { calling_pending_functors = false }

unfoldable pub quit : Bool → EventLoop → Option EventLoop
unfolding wakeup
quit in_loop_thread l = do
  assert l.looping
  let l' : EventLoop = record l { quitting = true }
  some (if in_loop_thread then l' else wakeup l')

-- What an active channel does: the one of the event descriptor, a callback that leaves functors,
-- or one that quits the loop.
pub data Active : Type 0 where
  wakes : Active
  leaves : List ℕ → Active
  quits : Active

unfoldable pub handle_all : List Active → EventLoop → Option EventLoop
unfolding handle_read queue_all quit
handle_all [] l = some l
handle_all (wakes ∷ cs) l = handle_all cs (handle_read l)
handle_all (leaves fs ∷ cs) l = handle_all cs (queue_all fs l)
handle_all (quits ∷ cs) l = do l' ← quit true l; handle_all cs l'

-- The rounds of `loop`, one for each time that the poller returns, with its active channels: after
-- the last the loop has left, or waits for the poller.
unfoldable pub rounds : (ℕ → List ℕ) → List (List Active) → EventLoop → Option EventLoop
unfolding handle_all do_pending_functors
rounds body [] l = some (if l.quitting then record l { looping = false } else l)
rounds body (active ∷ polls) l =
    if l.quitting
    then some (record l { looping = false })
    else (do l' ← handle_all active l; rounds body polls (do_pending_functors body l'))

unfoldable pub loop : (ℕ → List ℕ) → List (List Active) → EventLoop → Option EventLoop
unfolding rounds
loop body polls l = do
  assert (not l.looping)
  rounds body polls (record l { quitting = false; looping = true })
