-- ===== src/Redis/Instance/Usable.antt =====
-- Which connection a caller gets, and a pool whose connections are all refused.
use talib.Prelude.{
  ℕ, zero, suc, ◌<◌, ◌≤◌, drop, length, ◌≡◌, refl, ◌⊎◌, inl, inr, Bool, true, false, ◌&&◌, none,
  some, List, [], ◌∷◌, arith, ltb, leb, ◌==◌, if◌then◌else◌, Bool-cases, Option-cases, >>=-eq-some,
}
use talib.Redis.ResPool.{Data, ResPool, search, store, scan, grasp, disable, disabled, updated}
use talib.Redis.Instance.{returns, calls_again, Attempt, pool_get, grasp_connection}

-- A connection that a caller gets has no error code.
pub grasp_connection-works :
    (fuel : ℕ) (broken : ℕ → Bool) (attempts : List Attempt) (p p' : ResPool) (d : ℕ)
    → grasp_connection fuel broken attempts p ≡ some (returns (some d) p')
    → broken d ≡ false
unfolding grasp_connection
grasp_connection-works zero broken attempts p p' d h = absurd (cc h)
grasp_connection-works (suc fuel) broken attempts p p' d h =
    let ((r, q, left), e, h') =
      >>=-eq-some (pool_get attempts p)
        (λ x. elim x.0 [
          | none ↦ some (returns none x.1)
          | some f ↦
              if broken f
              then grasp_connection fuel broken x.2 (disable f x.1)
              else some (returns (some f) x.1)
        ])
        h in
    elim (Option-cases r) [
      | inl n ↦ absurd (ground arith)
      | inr (f, n) ↦ elim (Bool-cases (broken f)) [
        | inl bad ↦ grasp_connection-works fuel broken left (disable f q) p' d (ground arith)
        | inr good ↦ ground arith
      ]
    ]

-- A pool that holds nothing but places to refill.
abbrev pub IsVacant : List Data → Type 0
IsVacant items =
    (items ≡ []) ⊎ ((t : ℕ) × (n : ℕ) × (items ≡ record { num = n; utime = t; data_ = none } ∷ []))

-- Every connection that an attempt makes is one that the server refuses.
abbrev pub all_refused : (ℕ → Bool) → List Attempt → Bool
all_refused broken [] = true
all_refused broken (a ∷ attempts) =
    (elim a.created [ none ↦ false | some d ↦ broken d ]) && all_refused broken attempts

made : ℕ → List Data → ℕ → ResPool
made maxlen items timeout = record { maxlen = maxlen; timeout = timeout; vec = items }

grasp-IsVacant :
    (a : Attempt) (maxlen timeout : ℕ) (items : List Data) (d : ℕ)
    → IsVacant items
    → 0 < maxlen
    → a.created ≡ some d
    → (q : List Data) × (grasp a.now a.unique a.created (made maxlen items timeout)
        ≡ some (some d, made maxlen q timeout))
      × IsVacant (disabled d q)
unfolding grasp search store scan disabled made
grasp-IsVacant a maxlen timeout items d (inl e) m c =
    let room : ltb 0 maxlen ≡ true = ground arith in
    let full : leb maxlen 0 ≡ false = ground arith in
    let same : (d == d) ≡ true = ground arith in
    (updated a.now d ∷ [], rw (e, c, full, room) refl, inr (a.now, 0, rw same refl))
grasp-IsVacant a maxlen timeout items d (inr (t, n, e)) m c =
    let same : (d == d) ≡ true = ground arith in
    (updated a.now d ∷ [], rw (e, c) refl, inr (a.now, 0, rw same refl))

refused_again :
    (fuel : ℕ) (broken : ℕ → Bool) (attempts : List Attempt) (maxlen timeout : ℕ)
    (items : List Data)
    → IsVacant items
    → 0 < maxlen
    → 0 < timeout
    → all_refused broken attempts ≡ true
    → fuel ≤ length attempts
    → (q : List Data) × (grasp_connection fuel broken attempts (made maxlen items timeout)
        ≡ some (calls_again (drop fuel attempts) (made maxlen q timeout)))
      × IsVacant q
unfolding grasp_connection pool_get disable made
refused_again zero broken attempts maxlen timeout items v m t h l = (items, refl, v)
refused_again (suc fuel) broken [] maxlen timeout items v m t h l = absurd (omega arith)
refused_again (suc fuel) broken (a ∷ attempts) maxlen timeout items v m t h l =
    let kept : (timeout == 0) ≡ false = ground arith in
    elim (Option-cases a.created) [
      | inl e ↦ absurd (ground arith)
      | inr (d, e) ↦
          let (q, g, w) = grasp-IsVacant a maxlen timeout items d v m e in
          let bad : broken d ≡ true = ground arith in
          let rest : all_refused broken attempts ≡ true = ground arith in
          let (q', k, u) =
            refused_again fuel broken attempts maxlen timeout (disabled d q) w m t rest
              (omega arith) in
          (q', rw (kept, g, bad) k, u)
    ]

-- When a pool of a length and a timeout above 0 starts empty, and the server refuses every connection
-- that is made, a caller gets no answer for as long as attempts follow each other: each call takes one
-- attempt, disables the connection that it made, and calls itself again. After any number of calls
-- that there are attempts for, it is one more call that is to be made, with the attempts that are left
-- and a pool without a connection.
pub refused_recurs :
    (fuel : ℕ) (broken : ℕ → Bool) (attempts : List Attempt) (p : ResPool)
    → p.vec ≡ []
    → 0 < p.maxlen
    → 0 < p.timeout
    → all_refused broken attempts ≡ true
    → fuel ≤ length attempts
    → (p' : ResPool) × (grasp_connection fuel broken attempts p
        ≡ some (calls_again (drop fuel attempts) p'))
      × IsVacant p'.vec
unfolding made
refused_recurs fuel broken attempts p e m t h l =
    let (q, k, v) = refused_again fuel broken attempts p.maxlen p.timeout p.vec (inl e) m t h l in
    (made p.maxlen q p.timeout, k, v)
