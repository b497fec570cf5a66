-- ===== src/Redis/Instance/Waits.antt =====
-- `get` of the pool ends when its time is over.
use talib.Prelude.{
  ℕ, ◌+◌, ◌≡◌, refl, inl, inr, Bool, true, false, ◌||◌, Option, none, some, List, [], ◌∷◌, arith,
  ltb, ◌==◌, Bool-cases, Option-cases,
}
use talib.Redis.ResPool.{ResPool}
use talib.Redis.ResPool.Steps.{IsWithin, grasp-IsWithin}
use talib.Redis.ResPool.Scan.{granted, grasp_lem}
use talib.Redis.Instance.{Attempt, wait, pool_get}

-- An attempt after which the clock is past `endtime`.
abbrev pub has_late : ℕ → List Attempt → Bool
has_late endtime [] = false
has_late endtime (a ∷ attempts) = ltb endtime a.later || has_late endtime attempts

-- It gives an answer, and leaves the pool within its length.
pub Returns : Option (Option ℕ × ResPool × List Attempt) → Type 0
Returns result =
    (r : Option ℕ) × (p' : ResPool) × (left : List Attempt) × (result ≡ some (r, p', left))
    × IsWithin p'

wait-Returns :
    (endtime : ℕ) (attempts : List Attempt) (p : ResPool)
    → IsWithin p
    → has_late endtime attempts ≡ true
    → Returns (wait endtime attempts p)
unfolding wait Returns
wait-Returns endtime [] p w h = absurd (cc h)
wait-Returns endtime (a ∷ attempts) p w h =
    let (p', e) = grasp_lem a.now a.unique a.created p in
    let w' =
      grasp-IsWithin a.now a.unique a.created (granted a.now a.unique a.created p) p p' w e in
    elim (Option-cases (granted a.now a.unique a.created p)) [
      | inl g ↦ elim (Bool-cases (ltb endtime a.later)) [
        | inl over ↦ (none, p', attempts, rw (e, g, over) refl, w')
        | inr early ↦
            let h' : has_late endtime attempts ≡ true = ground arith in
            let (r, q, left, d, v) = wait-Returns endtime attempts p' w' h' in
            (r, q, left, rw (e, g, early, d) refl, v)
      ]
      | inr (d, g) ↦ (some d, p', attempts, rw (e, g) refl, w')
    ]

-- When the clock of some attempt after the first is past the three seconds that `get` waits, or the
-- pool keeps nothing, `get` returns, and leaves no more entries in the pool than its length allows.
pub pool_get-Returns :
    (a : Attempt) (attempts : List Attempt) (p : ResPool)
    → IsWithin p
    → (p.timeout == 0 || has_late (a.later + 3) attempts) ≡ true
    → Returns (pool_get (a ∷ attempts) p)
unfolding pool_get Returns
pool_get-Returns a attempts p w h = elim (Bool-cases (p.timeout == 0)) [
  | inl off ↦ (a.created, p, attempts, rw off refl, w)
  | inr on ↦
      let (p', e) = grasp_lem a.now a.unique a.created p in
      let w' =
        grasp-IsWithin a.now a.unique a.created (granted a.now a.unique a.created p) p p' w e in
      let h' : has_late (a.later + 3) attempts ≡ true = ground arith in
      elim (Option-cases (granted a.now a.unique a.created p)) [
        | inl g ↦
            let (r, q, left, d, v) = wait-Returns (a.later + 3) attempts p' w' h' in
            (r, q, left, rw (on, e, g, d) refl, v)
        | inr (d, g) ↦ (some d, p', attempts, rw (on, e, g) refl, w')
      ]
]
