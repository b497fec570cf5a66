-- ===== src/Reactor/TimerQueue/Restart.antt =====
-- After the callbacks the expired timers start again or are deleted.
use talib.Prelude.{
  ℕ, ◌≡◌, refl, ◌∙◌, inl, inr, false, not, ◌&&◌, some, List, [], ◌∷◌, arith, ltb, ◌==◌,
  if◌then◌else◌, Bool-cases, ◌>>=◌, All, find, insert, erase, find-insert, find-erase,
}
use talib.Prelude.PairSet.{Pair, has, has-put_in}
use talib.Reactor.TimerQueue.{Timer, TimerQueue, restart, restart_all, reset}
use talib.Reactor.TimerQueue.Valid.{
  IsValid, IsIdle, AllIdle, IsDistinct, inserted, insert_timer-IsValid, unaffected_sets,
}

-- The queue changes for one address only.
pub record Elsewhere (p : ℕ) (q q' : TimerQueue) : Type 0 where
  pub same_timer : (j : ℕ) → (p == j) ≡ false → find j q'.timers_of ≡ find j q.timers_of
  pub same_timers : (j w : ℕ) → (p == j) ≡ false → has (w, j) q'.timers ≡ has (w, j) q.timers
  pub same_active : (j s : ℕ) → (p == j) ≡ false → has (j, s) q'.active ≡ has (j, s) q.active

AllIdle-Elsewhere :
    (p : ℕ) (q q' : TimerQueue)
    → Elsewhere p q q'
    → (es : List Pair) → All (λ d. (p == d.1) ≡ false) es
    → AllIdle es q
    → AllIdle es q'
AllIdle-Elsewhere p q q' w [] d a = tt
AllIdle-Elsewhere p q q' w (e ∷ es) d a =
    let (t, i) = a.0 in
    (
      (
        t,
        record {
          alive = w.same_timer e.1 d.0 ∙ i.alive;
          addressed = i.addressed;
          apart = λ u. w.same_timers e.1 u d.0 ∙ i.apart u;
          inactive = λ s. w.same_active e.1 s d.0 ∙ i.inactive s;
        },
      ),
      AllIdle-Elsewhere p q q' w es d.1 a.1,
    )

module _ (p : ℕ) (t : Timer) (q : TimerQueue) (v : IsValid q) (i : IsIdle p t q) where
  deleted : TimerQueue
  deleted = record q { timers_of = erase p q.timers_of }

  deleted-IsValid : IsValid deleted
  unfolding deleted
  deleted-IsValid =
      unaffected_sets p q.timers_of (erase p q.timers_of) q.timers q.active
        (λ j h. find-erase p j q.timers_of ∙ rw h refl) i.apart i.inactive v

  deleted-Elsewhere : Elsewhere p q deleted
  unfolding deleted
  deleted-Elsewhere = record {
    same_timer = λ j h. find-erase p j q.timers_of ∙ rw h refl;
    same_timers = λ j w h. refl;
    same_active = λ j s h. refl;
  }

  module _ (u : Timer) where
    updated : TimerQueue
    updated = record q { timers_of = insert p u q.timers_of }

    updated-IsValid : IsValid updated
    unfolding updated
    updated-IsValid =
        unaffected_sets p q.timers_of (insert p u q.timers_of) q.timers q.active
          (λ j h. find-insert p j u q.timers_of ∙ rw h refl) i.apart i.inactive v

    updated-IsIdle : IsIdle p u updated
    unfolding updated
    updated-IsIdle = record {
      alive = find-insert p p u q.timers_of ∙ ground arith;
      addressed = i.addressed;
      apart = i.apart;
      inactive = i.inactive;
    }

    again : TimerQueue
    again = inserted p u updated

    again-Elsewhere : Elsewhere p q again
    unfolding again inserted updated
    again-Elsewhere = record {
      same_timer = λ j h. find-insert p j u q.timers_of ∙ rw h refl;
      same_timers = λ j w h. has-put_in (u.expiration, p) (w, j) q.timers ∙ ground arith;
      same_active = λ j s h. has-put_in (p, u.sequence) (j, s) q.active ∙ ground arith;
    }

-- The loop of reset fails no assertion, and leaves the queue valid.
pub restart_all-IsValid :
    (now : ℕ) (es : List Pair) (q : TimerQueue)
    → IsValid q
    → AllIdle es q
    → IsDistinct es
    → (q' : TimerQueue) × (restart_all now es q ≡ some q') × IsValid q'
unfolding restart_all updated deleted again
restart_all-IsValid now [] q v a d = (q, refl, v)
restart_all-IsValid now (e ∷ es) q v a d =
    let (t, i) = a.0 in
    elim (Bool-cases (t.repeat && not (has (e.1, t.sequence) q.canceling))) [
      | inl h ↦
          let u = restart now t in
          let (x, _, w) =
            insert_timer-IsValid e.1 u (updated e.1 t q v i u) (updated-IsValid e.1 t q v i u)
              (updated-IsIdle e.1 t q v i u) in
          let (q', y, z) =
            restart_all-IsValid now es (again e.1 t q v i u) w
              (AllIdle-Elsewhere e.1 q (again e.1 t q v i u) (again-Elsewhere e.1 t q v i u) es d.0
                a.1)
              d.1 in
          (q', rw (i.alive, h, x) y, z)
      | inr h ↦
          let (q', y, z) =
            restart_all-IsValid now es (deleted e.1 t q v i) (deleted-IsValid e.1 t q v i)
              (AllIdle-Elsewhere e.1 q (deleted e.1 t q v i) (deleted-Elsewhere e.1 t q v i) es d.0
                a.1)
              d.1 in
          (q', rw (i.alive, h) y, z)
    ]

-- The alarm is no part of what makes a queue valid; and the first timer is live.
set_alarm-IsValid :
    (q : TimerQueue)
    → IsValid q
    → (ts : List Pair) → q.timers ≡ ts
    → (q' : TimerQueue) × (elim ts [
      | [] ↦ some q
      | ◌∷◌ e timers ↦ do
        t ← find e.1 q.timers_of
        some (if ltb 0 t.expiration then record q { alarm = some t.expiration } else q)
    ]
        ≡ some q')
      × IsValid q'
unfolding has
set_alarm-IsValid q v [] h = (q, refl, v)
set_alarm-IsValid q v (e ∷ ts) h =
    let (t, f, _, _) = v.owned e (rw h (ground arith)) in
    elim (Bool-cases (ltb 0 t.expiration)) [
      | inl k ↦ (record q { alarm = some t.expiration }, rw (f, k) refl, v)
      | inr k ↦ (q, rw (f, k) refl, v)
    ]

pub reset-IsValid :
    (now : ℕ) (es : List Pair) (q : TimerQueue)
    → IsValid q
    → AllIdle es q
    → IsDistinct es
    → (q' : TimerQueue) × (reset now es q ≡ some q') × IsValid q'
unfolding reset
reset-IsValid now es q v a d =
    let (q1, x, w) = restart_all-IsValid now es q v a d in
    let (q2, y, u) = set_alarm-IsValid q1 w q1.timers refl in (q2, rw x y, u)
