-- ===== src/Reactor/TimerQueue/Expiry.antt =====
-- getExpired takes the timers that are due and no other, and cancelling one that waits fails.
use talib.Prelude.{
  ℕ, ◌≡◌, refl, sym, ap, inl, inr, Bool, true, false, not, ◌&&◌, none, some, List, [], ◌∷◌, ◌++◌,
  arith, ltb, leb, ◌==◌, if◌then◌else◌, Bool-cases, length, All, subst,
}
use talib.Prelude.PairSet.{Pair, precedes, has, taken_out, IsSorted, set_erase-Erases, put_in}
use talib.Reactor.TimerQueue.{
  TimerQueue, same_size, is_later, split_before, get_expired, cancel_in_loop, max_address,
}
use talib.Reactor.TimerQueue.Valid.{IsValid, AllIdle, IsDistinct}
use talib.Reactor.TimerQueue.Leave.{
  leave_active-Agree, OneEach, IsLive, Agree-OneEach, split-AllIdle,
}

split_before-append :
    (sentry : Pair) (ts : List Pair) → (split_before sentry ts).0 ++ (split_before sentry ts).1 ≡ ts
unfolding split_before
split_before-append sentry [] = refl
split_before-append sentry (e ∷ ts) = elim (Bool-cases (precedes e sentry)) [
  | inl h ↦ rw h (ap (λ z. e ∷ z) (split_before-append sentry ts))
  | inr h ↦ rw h refl
]

-- Due at this time, or later.
abbrev pub is_due : ℕ → Pair → Bool
is_due now e = leb e.0 now

All-later :
    (now : ℕ) (e : Pair) (ts : List Pair)
    → is_due now e ≡ false
    → All (λ d. precedes e d ≡ true) ts
    → All (λ d. is_due now d ≡ false) ts
All-later now e [] h a = tt
All-later now e (d ∷ ts) h a = (ground (arith, a.0), All-later now e ts h a.1)

split_before-due :
    (now : ℕ) (ts : List Pair)
    → IsSorted ts
    → All (λ e. ltb e.1 max_address ≡ true) ts
    → All (λ e. is_due now e ≡ true) (split_before (now, max_address) ts).0
      × All (λ e. is_due now e ≡ false) (split_before (now, max_address) ts).1
unfolding split_before
split_before-due now [] s r = (tt, tt)
split_before-due now (e ∷ ts) s r = elim (Bool-cases (precedes e (now, max_address))) [
  | inl h ↦ let (a, b) = split_before-due now ts s.1 r.1 in rw h ((ground arith, a), b)
  | inr h ↦
      let later : is_due now e ≡ false = ground (arith, r.0) in
      rw h (tt, (later, All-later now e ts later s.0))
]

All-is_later :
    (now : ℕ) (ts : List Pair) → All (λ e. is_due now e ≡ false) ts → is_later now ts ≡ true
All-is_later now [] a = refl
All-is_later now (e ∷ ts) a = ground (arith, a.0)

-- On a valid queue no assertion of getExpired fails. What it returns followed by what is left are the
-- timers in their order, those returned are due and no other is, and the queue is valid again. Those
-- returned still live, under different addresses, and are in neither set.
pub get_expired-IsValid :
    (now : ℕ) (q : TimerQueue)
    → IsValid q
    → (expired : List Pair) × (q' : TimerQueue) × (get_expired now q ≡ some (expired, q'))
      × (expired ++ q'.timers ≡ q.timers)
      × All (λ e. is_due now e ≡ true) expired
      × All (λ e. is_due now e ≡ false) q'.timers
      × IsValid q'
      × AllIdle expired q'
      × IsDistinct expired
      × (q'.timers_of ≡ q.timers_of)
unfolding get_expired
get_expired-IsValid now q v =
    let (active', d, w) = leave_active-Agree (now, max_address) q.timers_of q.timers q.active v in
    let (a, b) = split_before-due now q.timers v.timers_sorted v.in_range in
    let q' : TimerQueue = record q {
      timers = (split_before (now, max_address) q.timers).1;
      active = active';
    } in
    let same : same_size q' ≡ true = ground (arith, w.same_length) in
    let (o, l) = Agree-OneEach q.timers_of q.timers q.active v in
    let back = sym (split_before-append (now, max_address) q.timers) in
    let (i, u) =
      split-AllIdle q' w (split_before (now, max_address) q.timers).0 (subst OneEach back o)
        (subst (λ z. All (IsLive q.timers_of) z) back l) in
    (
      (split_before (now, max_address) q.timers).0,
      q',
      rw (All-is_later now (split_before (now, max_address) q.timers).1 b, d, same) refl,
      split_before-append (now, max_address) q.timers,
      a,
      b,
      w,
      i,
      u,
      refl,
    )

-- On a valid queue, cancelling a timer that waits fails an assertion: it leaves `m_timers` and not
-- `m_activeTimers`. Cancelling any other is noted while callbacks run, and does nothing otherwise.
pub cancel_in_loop_lem :
    (id : Pair) (q : TimerQueue)
    → IsValid q
    → cancel_in_loop id q ≡ (
        if has id q.active
        then none
        else some (
            if q.calling_expired && not (has id q.canceling)
            then record q { canceling = put_in id q.canceling }
            else q))
unfolding cancel_in_loop
cancel_in_loop_lem id q v =
    let same : same_size q ≡ true = ground (arith, v.same_length) in
    elim (Bool-cases (has id q.active)) [
      | inl h ↦
          let (t, f, x, a) = v.known id h in
          let (d, s) = set_erase-Erases (t.expiration, id.0) q.timers a v.timers_sorted in
          let smaller : (length (taken_out (t.expiration, id.0) q.timers) == length q.active)
              ≡ false =
            ground (arith, s.longer, v.same_length) in
          rw (same, h, f, d, smaller) refl
      | inr h ↦ ground (arith, same, h)
    ]
