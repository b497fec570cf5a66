-- ===== src/Reactor/TimerQueue/Leave.antt =====
-- How the expired timers leave both sets.
use talib.Prelude.{
  ℕ, ◌≡◌, refl, sym, ap, ◌∙◌, inl, inr, true, false, some, List, [], ◌∷◌, ◌++◌, arith, ltb, ◌==◌,
  Bool-cases, All, find, ◌||◌,
}
use mathlib.Core.Option.{some-injective}
use talib.Prelude.PairSet.{
  Pair, same_pair, precedes, has, has-precedes, taken_out, Erases, set_erase, set_erase-Erases,
}
use talib.Reactor.TimerQueue.{Timer, TimerQueue, split_before, leave_active, max_address}
use talib.Reactor.TimerQueue.Valid.{IsOwned, Agree, IsValid, AllIdle, IsDistinct}

-- The first timer leaves both sets.
module _ (m : List (ℕ × Timer)) (e : Pair) (ts active : List Pair)
    (v : Agree m (e ∷ ts) active) where
  first_owned : IsOwned m (e ∷ ts) active e
  unfolding has
  first_owned = v.owned e (ground arith)

  -- No later entry has its address.
  first_only : (w : ℕ) → has (w, e.1) ts ≡ false
  unfolding has
  first_only w = elim (Bool-cases (has (w, e.1) ts)) [
    | inr h ↦ h
    | inl h ↦
        let (t, f, x, a) = first_owned in
        let (u, g, y, b) = v.owned (w, e.1) (ground arith) in
        let same : w ≡ e.0 = cc in has-precedes e (w, e.1) ts v.timers_sorted.0 (ground arith)
  ]

  left : List Pair
  left = taken_out (e.1, first_owned.0.sequence) active

  left-Erases : Erases (e.1, first_owned.0.sequence) active left
  unfolding left
  left-Erases =
      (set_erase-Erases (e.1, first_owned.0.sequence) active first_owned.3 v.active_sorted).1

  first_erased : set_erase (e.1, first_owned.0.sequence) active ≡ some left
  unfolding left
  first_erased =
      (set_erase-Erases (e.1, first_owned.0.sequence) active first_owned.3 v.active_sorted).0

  left-Agree : Agree m ts left
  unfolding has
  left-Agree = record {
    timers_sorted = v.timers_sorted.1;
    active_sorted = left-Erases.sorted;
    same_length = ground (arith, v.same_length, left-Erases.longer);
    owned = λ d h.
        let (t, f, x, a) = v.owned d (ground arith) in
        let apart : (e.1 == d.1) ≡ false = elim (Bool-cases (e.1 == d.1)) [
          | inr s ↦ s
          | inl s ↦ let same : e.1 ≡ d.1 = ground arith in cc (same, first_only d.0)
        ] in
        (t, f, x, left-Erases.has_it (d.1, t.sequence) ∙ ground arith);
    known = λ d h.
        let old : has d active ≡ true = ground (arith, left-Erases.has_it d) in
        let (t, f, x, a) = v.known d old in
        (
          t,
          f,
          x,
          elim (Bool-cases (same_pair (t.expiration, d.0) e)) [
            | inr s ↦ ground arith
            | inl s ↦
                let address : d.0 ≡ e.1 = ground arith in
                let timer : t ≡ first_owned.0 =
                  some-injective _ _ (sym f ∙ ap (λ z. find z m) address ∙ first_owned.1) in
                let erased : same_pair d (e.1, first_owned.0.sequence) ≡ true =
                  ground (arith, ap (λ z. z.sequence) timer) in
                absurd (ground (arith, left-Erases.has_it d))
          ],
        );
    in_range = v.in_range.1;
  }

-- The expired timers leave one after the other.
pub leave_active-Agree :
    (sentry : Pair) (m : List (ℕ × Timer)) (ts active : List Pair)
    → Agree m ts active
    → (active' : List Pair) × (leave_active m (split_before sentry ts).0 active ≡ some active')
      × Agree m (split_before sentry ts).1 active'
unfolding leave_active split_before
leave_active-Agree sentry m [] active v = (active, refl, v)
leave_active-Agree sentry m (e ∷ ts) active v = elim (Bool-cases (precedes e sentry)) [
  | inr h ↦ (active, rw h refl, rw h v)
  | inl h ↦
      let (active', d, w) =
        leave_active-Agree sentry m ts (left m e ts active v) (left-Agree m e ts active v) in
      (active', rw (h, (first_owned m e ts active v).1, first_erased m e ts active v) d, rw h w)
]

-- No address stands in a valid queue twice, and every one is a live timer's.
abbrev pub OneEach : List Pair → Type 0
OneEach [] = Unit
OneEach (e ∷ ts) = ((w : ℕ) → has (w, e.1) ts ≡ false) × OneEach ts

abbrev pub IsLive : List (ℕ × Timer) → Pair → Type 0
IsLive m e = (t : Timer) × (find e.1 m ≡ some t) × (ltb e.1 max_address ≡ true)

pub Agree-OneEach :
    (m : List (ℕ × Timer)) (ts active : List Pair)
    → Agree m ts active
    → OneEach ts × All (IsLive m) ts
Agree-OneEach m [] active v = (tt, tt)
Agree-OneEach m (e ∷ ts) active v =
    let (a, b) = Agree-OneEach m ts (left m e ts active v) (left-Agree m e ts active v) in
    let (t, f, _, _) = first_owned m e ts active v in
    ((first_only m e ts active v, a), ((t, f, v.in_range.0), b))

has-append : (x : Pair) (s r : List Pair) → has x (s ++ r) ≡ (has x s || has x r)
unfolding has
has-append x [] r = refl
has-append x (y ∷ s) r = ground (arith, has-append x s r)

others_apart :
    (p : ℕ) (s : List Pair) → ((w : ℕ) → has (w, p) s ≡ false) → All (λ d. (p == d.1) ≡ false) s
unfolding has
others_apart p [] h = tt
others_apart p (d ∷ s) h = (ground (arith, h d.0), others_apart p s (λ w. ground (arith, h w)))

-- What left both sets of a valid queue is idle.
pub split-AllIdle :
    (q : TimerQueue)
    → IsValid q
    → (ex : List Pair) → OneEach (ex ++ q.timers)
    → All (IsLive q.timers_of) (ex ++ q.timers)
    → AllIdle ex q × IsDistinct ex
split-AllIdle q v [] o a = (tt, tt)
split-AllIdle q v (e ∷ ex) o a =
    let (t, f, r) = a.0 in
    let (b, d) = split-AllIdle q v ex o.1 a.1 in
    let outside : (w : ℕ) → has (w, e.1) q.timers ≡ false =
      λ w. ground (arith, o.0 w, has-append (w, e.1) ex q.timers) in
    (
      (
        (
          t,
          record {
            alive = f;
            addressed = r;
            apart = outside;
            inactive = λ s. elim (Bool-cases (has (e.1, s) q.active)) [
              | inr h ↦ h
              | inl h ↦ let (u, _, _, k) = v.known (e.1, s) h in cc (k, outside u.expiration)
            ];
          },
        ),
        b,
      ),
      (others_apart e.1 ex (λ w. ground (arith, o.0 w, has-append (w, e.1) ex q.timers)), d),
    )
