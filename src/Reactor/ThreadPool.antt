-- ===== src/Reactor/ThreadPool.antt =====
-- src/Reactor/EventLoopThreadPool.h and EventLoopThreadPool.cpp: the loops that share the
-- connections. A loop is known by a number. Each operation takes whether the caller is the thread of
-- the base loop; `none` is a failed assertion, a call from another thread, or an index outside the
-- vector.
pub mod RoundRobin
mod Tests
use talib.Prelude.{
  ℕ, zero, suc, ◌+◌, ◌%◌, Bool, true, false, not, Option, some, List, [], ◌∷◌, ◌++◌, leb, ◌==◌,
  if◌then◌else◌, ◌>>=◌, ◌>>◌, assert, length, get_elem?,
}

pub record EventLoopThreadPool : Type 0 where
  pub base_loop : ℕ
  pub started : Bool
  pub num_threads : ℕ
  pub next : ℕ
  pub loops : List ℕ

unfoldable pub new_pool : ℕ → ℕ → EventLoopThreadPool
new_pool base_loop num_threads = record {
  base_loop = base_loop;
  started = false;
  num_threads = num_threads;
  next = 0;
  loops = [];
}

unfoldable pub set_thread_num : ℕ → EventLoopThreadPool → EventLoopThreadPool
set_thread_num n pool = record pool { num_threads = n }

-- The loops of new threads: `start_loop` gives the loop of the thread with this name's number.
unfoldable pub start_loops : (ℕ → ℕ) → ℕ → List ℕ
start_loops start_loop zero = []
start_loops start_loop (suc n) = start_loops start_loop n ++ start_loop n ∷ []

unfoldable pub start : Bool → (ℕ → ℕ) → EventLoopThreadPool → Option EventLoopThreadPool
unfolding start_loops
start in_loop_thread start_loop pool = do
  assert (not pool.started)
  assert in_loop_thread
  some (record pool {
    started = true;
    loops = pool.loops ++ start_loops start_loop pool.num_threads;
  })

unfoldable pub get_next_loop : Bool → EventLoopThreadPool → Option (ℕ × EventLoopThreadPool)
get_next_loop in_loop_thread pool = do
  assert in_loop_thread
  assert pool.started
  if length pool.loops == 0 then some (pool.base_loop, pool) else (do
    loop ← get_elem? pool.loops pool.next
    let after = pool.next + 1
    some (loop, record pool { next = if leb (length pool.loops) after then 0 else after }))

unfoldable pub get_loop_for_hash : Bool → ℕ → EventLoopThreadPool → Option ℕ
get_loop_for_hash in_loop_thread hash_code pool = do
  assert in_loop_thread
  if length pool.loops == 0
      then some pool.base_loop
      else get_elem? pool.loops (hash_code % length pool.loops)

unfoldable pub get_all_loops : Bool → EventLoopThreadPool → Option (List ℕ)
get_all_loops in_loop_thread pool = do
  assert in_loop_thread
  assert pool.started
  some (if length pool.loops == 0 then pool.base_loop ∷ [] else pool.loops)
