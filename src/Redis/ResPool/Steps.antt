-- ===== src/Redis/ResPool/Steps.antt =====
-- Threads on one pool: their locked parts in any order.
use talib.Prelude.{
  ℕ, suc, ◌≤◌, ◌≡◌, refl, subst, Bool, Option, none, some, List, [], ◌∷◌, arith, ◌>>=◌, >>=-eq-some,
  length, length-append, length-set,
}
use talib.Redis.ResPool.{
  Data, ResPool, Found, shared, searched, scan, search, store, clear, disabled, disable, grasp,
  set_length, set_timeout, updated,
}

-- The parts that run under the lock; a store comes with what its search has found, at any time
-- before.
pub data Step : Type 0 where
  searches : ℕ → (ℕ → Bool) → Step
  stores : ℕ → Found → ℕ → Option ℕ → Step
  clears : Step
  disables sets_length sets_timeout : ℕ → Step

-- What the store returns goes to its caller.
unfoldable pub left_by : Option (Option ℕ × ResPool) → Option ResPool
left_by none = none
left_by (some (r, p)) = some p

unfoldable pub step : Step → ResPool → Option ResPool
unfolding left_by
step (searches now unique) p = some (search now unique p).1
step (stores now f len created) p = left_by (store now f len created p)
step clears p = some (clear p)
step (disables d) p = some (disable d p)
step (sets_length n) p = some (set_length n p)
step (sets_timeout n) p = some (set_timeout n p)

unfoldable pub run : List Step → ResPool → Option ResPool
run [] p = some p
run (s ∷ ss) p = do p' ← step s p; run ss p'

pub length-scan :
    (timeout now : ℕ) (unique : ℕ → Bool) (i : ℕ) (idx : Option ℕ) (items : List Data)
    → length (scan timeout now unique i idx items).1 ≡ length items
unfolding scan
length-scan timeout now unique i idx [] = refl
length-scan timeout now unique i idx (item ∷ items) = ground (
  arith,
  length-scan timeout now unique (suc i) (some i) items,
  length-scan timeout now unique (suc i) idx items,
)

length-disabled : (d : ℕ) (items : List Data) → length (disabled d items) ≡ length items
unfolding disabled
length-disabled d [] = refl
length-disabled d (item ∷ items) = ground (arith, length-disabled d items)

abbrev pub IsWithin : ResPool → Type 0
IsWithin p = length p.vec ≤ p.maxlen

store-IsWithin :
    (now : ℕ) (f : Found) (len : ℕ) (created : Option ℕ) (p p' : ResPool)
    → IsWithin p
    → left_by (store now f len created p) ≡ some p'
    → IsWithin p'
unfolding store left_by
store-IsWithin now (shared d) len created p p' w h = ground arith
store-IsWithin now (searched none) len none p p' w h = ground arith
store-IsWithin now (searched none) len (some d) p p' w h =
    ground (arith, length-append p.vec (updated now d ∷ []))
store-IsWithin now (searched (some i)) len none p p' w h = ground arith
store-IsWithin now (searched (some i)) len (some d) p p' w h =
    ground (arith, length-set p.vec i (updated now d))

step-IsWithin : (s : Step) (p p' : ResPool) → IsWithin p → step s p ≡ some p' → IsWithin p'
unfolding step search clear disable set_length set_timeout
step-IsWithin (searches now unique) p p' w h =
    ground (arith, length-scan p.timeout now unique 0 none p.vec)
step-IsWithin (stores now f len created) p p' w h = store-IsWithin now f len created p p' w h
step-IsWithin clears p p' w h = ground arith
step-IsWithin (disables d) p p' w h = ground (arith, length-disabled d p.vec)
step-IsWithin (sets_length n) p p' w h = ground arith
step-IsWithin (sets_timeout n) p p' w h = ground arith

pub grasp-IsWithin :
    (now : ℕ) (unique : ℕ → Bool) (created r : Option ℕ) (p p' : ResPool)
    → IsWithin p
    → grasp now unique created p ≡ some (r, p')
    → IsWithin p'
unfolding grasp search left_by
grasp-IsWithin now unique created r p p' w h =
    store-IsWithin now (scan p.timeout now unique 0 none p.vec).0 (length p.vec) created
      (record p { vec = (scan p.timeout now unique 0 none p.vec).1 }) p'
      (omega (arith, length-scan p.timeout now unique 0 none p.vec)) (rw h refl)

pub disable-IsWithin : (d : ℕ) (p : ResPool) → IsWithin p → IsWithin (disable d p)
unfolding disable
disable-IsWithin d p w = omega (arith, length-disabled d p.vec)

-- Whatever the threads do, and in whatever order their locked parts run, the pool never holds more
-- entries than its length allows.
pub run-IsWithin : (ss : List Step) (p p' : ResPool) → IsWithin p → run ss p ≡ some p' → IsWithin p'
unfolding run
run-IsWithin [] p p' w h = let e : p ≡ p' = cc h in subst IsWithin e w
run-IsWithin (s ∷ ss) p p' w h =
    let (q, d, e) = >>=-eq-some (step s p) (run ss) h in
    run-IsWithin ss q p' (step-IsWithin s p q w d) e
