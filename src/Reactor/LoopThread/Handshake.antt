-- ===== src/Reactor/LoopThread/Handshake.antt =====
-- What startLoop and the destructor meet, in every order of the steps.
use talib.Prelude.{ℕ, ◌+◌, ◌≤◌, ◌<◌, ◌≡◌, refl, ◌≢◌, ◌⊎◌, inl, inr, Bool, true, false, arith}
use talib.Reactor.LoopThread.{
  Owner, idle, checking, leaving, quitting, joining, gone, aborted, sleeping, returned, LoopThread,
  unstarted, initialising, published, looping, ended, World, Step, starts, sleeps, sees, wakes,
  wakes_by_itself, returns, publishes, enters, ends, destroys, destroys_without, quits, aborts,
  joins, Reach, start, later, notified,
}

-- The worlds that can be reached.
data Met : World → Type 0 where
  fresh : Met (record { owner = idle; thread = unstarted; p_loop = false; quit = false })
  early : Met (record { owner = checking; thread = initialising; p_loop = false; quit = false })
  asleep :
      Met (record { owner = sleeping false; thread = initialising; p_loop = false; quit = false })
  called_before :
      Met (record { owner = sleeping true; thread = published; p_loop = true; quit = false })
  late_before : Met (record { owner = checking; thread = published; p_loop = true; quit = false })
  seen_before : Met (record { owner = leaving; thread = published; p_loop = true; quit = false })
  given_before :
      Met (record { owner = returned true; thread = published; p_loop = true; quit = false })
  destroyed_before :
      Met (record { owner = quitting; thread = published; p_loop = true; quit = false })
  called : Met (record { owner = sleeping true; thread = looping; p_loop = true; quit = false })
  late : Met (record { owner = checking; thread = looping; p_loop = true; quit = false })
  seen : Met (record { owner = leaving; thread = looping; p_loop = true; quit = false })
  given : Met (record { owner = returned true; thread = looping; p_loop = true; quit = false })
  destroyed : Met (record { owner = quitting; thread = looping; p_loop = true; quit = false })
  failed : Met (record { owner = aborted; thread = published; p_loop = true; quit = false })
  failed_late : Met (record { owner = aborted; thread = looping; p_loop = true; quit = false })
  told : Met (record { owner = joining; thread = looping; p_loop = true; quit = true })
  over : Met (record { owner = joining; thread = ended; p_loop = false; quit = true })
  joined : Met (record { owner = gone; thread = ended; p_loop = false; quit = true })

Step-Met : {k : Bool} {v w : World} → Met v → Step k v w → Met w
Step-Met fresh starts = early
Step-Met early sleeps = asleep
Step-Met early publishes = late_before
Step-Met asleep wakes_by_itself = early
Step-Met asleep publishes = called_before
Step-Met called_before wakes = late_before
Step-Met late_before sees = seen_before
Step-Met seen_before returns = given_before
Step-Met given_before destroys = destroyed_before
Step-Met called wakes = late
Step-Met late sees = seen
Step-Met seen returns = given
Step-Met given destroys = destroyed
Step-Met called_before enters = called
Step-Met late_before enters = late
Step-Met seen_before enters = seen
Step-Met given_before enters = given
Step-Met destroyed_before enters = destroyed
Step-Met failed enters = failed_late
Step-Met destroyed quits = told
Step-Met destroyed_before aborts = failed
Step-Met told ends = over
Step-Met over joins = joined
Step-Met joined s = elim s [ ]
Step-Met failed_late s = elim s [ ]

Reach-Met : {w : World} → Reach w → Met w
Reach-Met start = fresh
Reach-Met (later r s) = Step-Met (Reach-Met r) s

-- What startLoop returns is a loop: the pointer is set, and the thread has not ended.
pub Reach-returned :
    {w : World} {b : Bool}
    → Reach w
    → w.owner ≡ returned b
    → (b ≡ true) × (w.p_loop ≡ true) × (w.thread ≢ ended)
Reach-returned r e = go (Reach-Met r) e
  where
    go :
        {v : World} {b : Bool}
        → Met v
        → v.owner ≡ returned b
        → (b ≡ true) × (v.p_loop ≡ true) × (v.thread ≢ ended)
    go given e = (cc e, refl, λ h. cc h)
    go given_before e = (cc e, refl, λ h. cc h)
    go m e = absurd (cc e)

owner_rank : Owner → ℕ
owner_rank idle = 9
owner_rank checking = 6
owner_rank (sleeping true) = 7
owner_rank (sleeping false) = 5
owner_rank leaving = 5
owner_rank (returned b) = 4
owner_rank quitting = 3
owner_rank joining = 2
owner_rank gone = 1
owner_rank aborted = 0

thread_rank : LoopThread → ℕ
thread_rank unstarted = 6
thread_rank initialising = 5
thread_rank published = 2
thread_rank looping = 1
thread_rank ended = 0

-- How many steps are left at most, a wake-up without a notification aside.
pub rank : World → ℕ
unfolding owner_rank thread_rank
rank w = owner_rank w.owner + thread_rank w.thread

notified-rank : (o : Owner) → owner_rank (notified o) ≤ owner_rank o + 2
unfolding owner_rank
notified-rank idle = omega arith
notified-rank checking = omega arith
notified-rank leaving = omega arith
notified-rank quitting = omega arith
notified-rank joining = omega arith
notified-rank gone = omega arith
notified-rank aborted = omega arith
notified-rank (sleeping true) = omega arith
notified-rank (sleeping false) = omega arith
notified-rank (returned b) = omega arith

Step-rank : {v w : World} → Step false v w → rank w < rank v
unfolding rank owner_rank thread_rank
Step-rank starts = omega arith
Step-rank sleeps = omega arith
Step-rank sees = omega arith
Step-rank wakes = omega arith
Step-rank returns = omega arith
Step-rank (publishes {o = o}) = omega (arith, notified-rank o)
Step-rank enters = omega arith
Step-rank ends = omega arith
Step-rank destroys = omega arith
Step-rank destroys_without = omega arith
Step-rank quits = omega arith
Step-rank aborts = omega arith
Step-rank joins = omega arith

abbrev pub is_over : Owner → Bool
is_over gone = true
is_over aborted = true
is_over _ = false

Moves : World → Type 0
Moves v = (w : World) × Step false v w

Met-Moves : {v : World} → Met v → (is_over v.owner ≡ true) ⊎ Moves v
unfolding Moves
Met-Moves fresh = inr (_, starts)
Met-Moves early = inr (_, sleeps)
Met-Moves asleep = inr (_, publishes)
Met-Moves called = inr (_, wakes)
Met-Moves late = inr (_, sees)
Met-Moves seen = inr (_, returns)
Met-Moves given = inr (_, destroys)
Met-Moves destroyed = inr (_, quits)
Met-Moves called_before = inr (_, wakes)
Met-Moves late_before = inr (_, sees)
Met-Moves seen_before = inr (_, returns)
Met-Moves given_before = inr (_, destroys)
Met-Moves destroyed_before = inr (_, enters)
Met-Moves told = inr (_, ends)
Met-Moves over = inr (_, joins)
Met-Moves failed = inl refl
Met-Moves failed_late = inl refl
Met-Moves joined = inl refl

-- In every order of the steps startLoop and the destructor come to an end: from any world that can be
-- reached, unless the object is gone or the process has stopped, a step can be done that is not a
-- wake-up without a notification, and each such step lowers the rank. So no notification is lost, and
-- no wait lasts for ever.
pub Reach-Moves :
    {v : World}
    → Reach v
    → ((is_over v.owner ≡ true) ⊎ ((w : World) × Step false v w))
      × ((w : World) → Step false v w → rank w < rank v)
unfolding Moves
Reach-Moves r = (Met-Moves (Reach-Met r), λ w s. Step-rank s)
