-- ===== src/Reactor/ThreadPool/Tests.antt =====
-- A pool of three threads.
use talib.Prelude.{ℕ, ◌+◌, ◌≡◌, refl, true, none, some, ◌>>=◌}
use talib.Reactor.ThreadPool.{new_pool, start_loops, start, get_next_loop}
use talib.Reactor.ThreadPool.RoundRobin.{nth_loop}

abbrev loop_of : ℕ → ℕ
loop_of i = 40 + i

-- Without threads the base loop serves, and a pool that was not started serves nobody.
without_threads : (do pool ← start true loop_of (new_pool 9 0); nth_loop 5 pool) ≡ some 9
unfolding start new_pool start_loops nth_loop get_next_loop
without_threads = refl

not_started : nth_loop 0 (new_pool 9 3) ≡ none
unfolding new_pool nth_loop get_next_loop
not_started = refl
