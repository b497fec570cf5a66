-- ===== src/Reactor/TimerQueue/Round.antt =====
-- The whole of handleRead, with callbacks that cancel.
use talib.Prelude.{
  ℕ, ◌≡◌, refl, inl, inr, Bool, true, false, some, List, [], ◌∷◌, map, arith, leb, Bool-cases, All,
  find,
}
use talib.Prelude.PairSet.{Pair, same_pair, has, put_in}
use talib.Reactor.TimerQueue.{Timer, TimerQueue, cancels, run_all, answer, handle_read}
use talib.Reactor.TimerQueue.Valid.{IsValid, AllIdle}
use talib.Reactor.TimerQueue.Restart.{reset-IsValid}
use talib.Reactor.TimerQueue.Expiry.{is_due, get_expired-IsValid, cancel_in_loop_lem}

-- A queue with other marks for the callbacks.
abbrev marked : Bool → List Pair → TimerQueue → TimerQueue
marked b canceling q = record q { calling_expired = b; canceling = canceling }

-- Callbacks that cancel timers none of which waits.
abbrev NoneWaits : List Pair → TimerQueue → Type 0
NoneWaits ids q = All (λ id. has id q.active ≡ false) ids

same_marks : (c : List Pair) (q : TimerQueue) → IsValid q → IsValid (marked true c q)
same_marks c q v = v

answer-marks :
    (ids c : List Pair) (q : TimerQueue)
    → IsValid q
    → NoneWaits ids q
    → (c' : List Pair) × (answer (map cancels ids) (marked true c q) ≡ some (marked true c' q))
unfolding answer
answer-marks [] c q v a = (c, refl)
answer-marks (id ∷ ids) c q v a = elim (Bool-cases (has id c)) [
  | inl h ↦
      let (c', d) = answer-marks ids c q v a.1 in
      (c', rw (cancel_in_loop_lem id (marked true c q) (same_marks c q v), a.0, h) d)
  | inr h ↦
      let (c', d) = answer-marks ids (put_in id c) q v a.1 in
      (c', rw (cancel_in_loop_lem id (marked true c q) (same_marks c q v), a.0, h) d)
]

run_all-marks :
    (ids : ℕ → List Pair) (es c : List Pair) (q : TimerQueue)
    → IsValid q
    → AllIdle es q
    → ((p : ℕ) → NoneWaits (ids p) q)
    → (c' : List Pair) × (run_all (λ p. map cancels (ids p)) es (marked true c q)
        ≡ some (marked true c' q))
unfolding run_all
run_all-marks ids [] c q v a w = (c, refl)
run_all-marks ids (e ∷ es) c q v a w =
    let (c1, d) = answer-marks (ids e.1) c q v (w e.1) in
    let (c2, d') = run_all-marks ids es c1 q v a.1 w in (c2, rw (a.0.1.alive, d) d')

AllIdle-marked :
    (b : Bool) (c es : List Pair) (q : TimerQueue) → AllIdle es q → AllIdle es (marked b c q)
AllIdle-marked b c [] q a = tt
AllIdle-marked b c (e ∷ es) q a =
    let (t, i) = a.0 in
    (
      (
        t,
        record { alive = i.alive; addressed = i.addressed; apart = i.apart; inactive = i.inactive },
      ),
      AllIdle-marked b c es q a.1,
    )

not_due :
    (now : ℕ) (x : Pair) (s : List Pair)
    → All (λ e. is_due now e ≡ false) s
    → has x s ≡ true
    → is_due now x ≡ false
unfolding has
not_due now x [] a h = cc
not_due now x (e ∷ s) a h = elim (Bool-cases (same_pair x e)) [
  | inl k ↦ ground (arith, a.0)
  | inr k ↦ not_due now x s a.1 (ground arith)
]

-- The timers that are live and due, if live at all.
abbrev pub OnlyDue : ℕ → List (ℕ × Timer) → List Pair → Type 0
OnlyDue now m ids = All (λ id. (t : Timer) → find id.0 m ≡ some t → leb t.expiration now ≡ true) ids

none_waits :
    (now : ℕ) (q : TimerQueue)
    → IsValid q
    → All (λ e. is_due now e ≡ false) q.timers
    → (ids : List Pair) → OnlyDue now q.timers_of ids
    → NoneWaits ids q
none_waits now q v a [] d = tt
none_waits now q v a (id ∷ ids) d = (
  elim (Bool-cases (has id q.active)) [
    | inr h ↦ h
    | inl h ↦
        let (t, f, _, k) = v.known id h in
        let later : leb t.expiration now ≡ false = not_due now (t.expiration, id.0) q.timers a k in
        cc (later, d.0 t f)
  ],
  none_waits now q v a ids d.1,
)

-- Callbacks that cancel only timers that are due, themselves for one, are safe: all of handleRead
-- runs without a failed assertion or a use of a deleted timer, and leaves a valid queue.
pub handle_read-IsValid :
    (now : ℕ) (ids : ℕ → List Pair) (q : TimerQueue)
    → IsValid q
    → ((p : ℕ) → OnlyDue now q.timers_of (ids p))
    → (q' : TimerQueue) × (handle_read now (λ p. map cancels (ids p)) q ≡ some q') × IsValid q'
unfolding handle_read
handle_read-IsValid now ids q v o =
    let (es, q1, d, _, _, later, w, a, u, same) = get_expired-IsValid now q v in
    let quiet : (p : ℕ) → NoneWaits (ids p) q1 =
      λ p. none_waits now q1 w later (ids p) (rw same (o p)) in
    let (c, r) = run_all-marks ids es [] q1 w a quiet in
    let (q2, s, z) =
      reset-IsValid now es (marked false c q1) w (AllIdle-marked false c es q1 a) u in
    (q2, rw (d, r) s, z)
