-- ===== src/Reactor/LoopThread/Tests.antt =====
-- An owner that sleeps until the loop is there, and one that destroys the object at once.
use talib.Prelude.{◌<◌, ◌≡◌, refl, ◌≢◌, ◌⊎◌, true, false}
use talib.Reactor.LoopThread.{
  aborted, returned, published, ended, World, Step, starts, sleeps, sees, wakes, returns, publishes,
  destroys, aborts, Reach, start, later,
}
use talib.Reactor.LoopThread.Handshake.{Reach-returned, Reach-Moves, rank, is_over}

abbrev has_loop : World
has_loop = record { owner = returned true; thread = published; p_loop = true; quit = false }

has_loop-Reach : Reach has_loop
has_loop-Reach =
    later (later (later (later (later (later start starts) sleeps) publishes) wakes) sees) returns

Reach-returned_example : (true ≡ true) × (true ≡ true) × (published ≢ ended)
Reach-returned_example = Reach-returned has_loop-Reach refl

Reach-Moves_example :
    ((is_over has_loop.owner ≡ true) ⊎ ((w : World) × Step false has_loop w))
    × ((w : World) → Step false has_loop w → rank w < rank has_loop)
Reach-Moves_example = Reach-Moves has_loop-Reach

-- The loop has not begun when it is told to quit, and the assertion fails.
stops : Reach (record { owner = aborted; thread = published; p_loop = true; quit = false })
stops = later (later has_loop-Reach destroys) aborts
