-- ===== src/Reactor/ThreadPool/RoundRobin.antt =====
-- The loops are handed out in turn.
use talib.Prelude.{
  ℕ, zero, suc, ◌+◌, ◌%◌, ◌<◌, ◌≡◌, refl, sym, ap, ◌∙◌, inl, inr, true, false, Option, some, List,
  [], ◌∷◌, ◌++◌, arith, leb, ◌==◌, if◌then◌else◌, Bool-cases, ◌>>=◌, length, get_elem?,
  length-append,
}
use native.Mathlib.Nat.{add-mod_left, mod-eq_of_lt}
use talib.Reactor.ThreadPool.{
  EventLoopThreadPool, new_pool, start_loops, start, get_next_loop, get_loop_for_hash,
  get_all_loops,
}

-- What the call number k of getNextLoop from now on returns, the first being 0.
unfoldable pub nth_loop : ℕ → EventLoopThreadPool → Option ℕ
nth_loop zero pool = do (loop, pool') ← get_next_loop true pool; some loop
nth_loop (suc k) pool = do (loop, pool') ← get_next_loop true pool; nth_loop k pool'

length-start_loops : (f : ℕ → ℕ) (n : ℕ) → length (start_loops f n) ≡ n
unfolding start_loops
length-start_loops f zero = refl
length-start_loops f (suc n) =
    length-append (start_loops f n) (f n ∷ []) ∙ omega (arith, length-start_loops f n)

get_elem?-snoc :
    (xs : List ℕ) (x i : ℕ)
    → get_elem? (xs ++ x ∷ []) i ≡ (if i == length xs then some x else get_elem? xs i)
get_elem?-snoc [] x zero = refl
get_elem?-snoc [] x (suc i) = ground arith
get_elem?-snoc (y ∷ xs) x zero = ground arith
get_elem?-snoc (y ∷ xs) x (suc i) = ground (arith, get_elem?-snoc xs x i)

get_elem?-start_loops : (f : ℕ → ℕ) (n i : ℕ) → i < n → get_elem? (start_loops f n) i ≡ some (f i)
unfolding start_loops
get_elem?-start_loops f zero i h = absurd (omega arith)
get_elem?-start_loops f (suc n) i h = elim (Bool-cases (i == n)) [
  | inl e ↦
      let same : i ≡ n = ground arith in
      rw (get_elem?-snoc (start_loops f n) (f n) i, length-start_loops f n, e)
        (ap (λ z. some (f z)) (sym same))
  | inr e ↦
      rw (get_elem?-snoc (start_loops f n) (f n) i, length-start_loops f n, e)
        (get_elem?-start_loops f n i (ground arith))
]

-- A pool that was started with `n + 1` threads, at some turn.
unfoldable pub at_turn : ℕ → (ℕ → ℕ) → ℕ → ℕ → EventLoopThreadPool
at_turn base f n i = record {
  base_loop = base;
  started = true;
  num_threads = suc n;
  next = i;
  loops = start_loops f (suc n);
}

-- After the last loop comes the first.
abbrev pub after : ℕ → ℕ → ℕ
after n i = if leb (suc n) (i + 1) then 0 else i + 1

module _ (base : ℕ) (f : ℕ → ℕ) (n : ℕ) where
  pub next_turn :
      (i : ℕ)
      → i < suc n
      → get_next_loop true (at_turn base f n i) ≡ some (f i, at_turn base f n (after n i))
  unfolding get_next_loop at_turn
  next_turn i h =
      let some_loops : (length (start_loops f (suc n)) == 0) ≡ false =
        ground (arith, length-start_loops f (suc n)) in
      rw (some_loops, get_elem?-start_loops f (suc n) i h, length-start_loops f (suc n)) refl

  turns_shift : (i k : ℕ) → i < suc n → (after n i + k) % suc n ≡ (i + suc k) % suc n
  turns_shift i k h = elim (Bool-cases (leb (suc n) (i + 1))) [
    | inl e ↦
        let last : i ≡ n = ground arith in
        let zero_add : 0 + k ≡ k = omega arith in
        rw e (
          ap (λ z. z % suc n) zero_add
          ∙ sym (add-mod_left (suc n) k)
          ∙ ap (λ z. z % suc n) (omega arith))
    | inr e ↦ rw e (ap (λ z. z % suc n) (omega arith))
  ]

  nth_loop-at_turn :
      (k i : ℕ) → i < suc n → nth_loop k (at_turn base f n i) ≡ some (f ((i + k) % suc n))
  unfolding nth_loop
  nth_loop-at_turn zero i h =
      let small : (i + 0) % suc n ≡ i = ap (λ z. z % suc n) (omega arith) ∙ mod-eq_of_lt h in
      rw (next_turn i h, small) refl
  nth_loop-at_turn (suc k) i h =
      rw (next_turn i h)
        (nth_loop-at_turn k (after n i) (ground arith) ∙ ap (λ z. some (f z)) (turns_shift i k h))

-- A pool of at least one thread hands out the loops of its threads in turn, and for a hash code always
-- the same one. Started, it never fails: every index is inside the vector.
pub start_lem :
    (base : ℕ) (start_loop : ℕ → ℕ) (n k : ℕ)
    → (pool : EventLoopThreadPool) × (start true start_loop (new_pool base (suc n)) ≡ some pool)
      × (nth_loop k pool ≡ some (start_loop (k % suc n)))
      × (get_loop_for_hash true k pool ≡ some (start_loop (k % suc n)))
      × (get_all_loops true pool ≡ some (start_loops start_loop (suc n)))
unfolding start new_pool at_turn get_loop_for_hash get_all_loops
start_lem base start_loop n k =
    let some_loops : (length (start_loops start_loop (suc n)) == 0) ≡ false =
      ground (arith, length-start_loops start_loop (suc n)) in
    (
      at_turn base start_loop n 0,
      refl,
      nth_loop-at_turn base start_loop n k 0 (omega arith)
          ∙ ap (λ z. some (start_loop (z % suc n))) (omega arith),
      rw (some_loops, length-start_loops start_loop (suc n))
          (get_elem?-start_loops start_loop (suc n) (k % suc n) (omega arith)),
      rw some_loops refl,
    )
