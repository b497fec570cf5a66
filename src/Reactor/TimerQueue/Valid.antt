-- ===== src/Reactor/TimerQueue/Valid.antt =====
-- The three structures of the timers agree, and stay so when a timer is added.
use talib.Prelude.{
  [], ◌∷◌, ℕ, suc, ◌≡◌, refl, sym, ap, ◌∙◌, inl, inr, true, false, none, some, List, arith, ltb,
  ◌==◌, if◌then◌else◌, Bool-cases, length, All, find, insert, find-insert,
}
use talib.Prelude.PairSet.{
  Pair, same_pair, has, set_insert, put_in, IsSorted, Inserts, set_insert-Inserts, All-put_in,
}
use talib.Reactor.TimerQueue.{
  Timer, TimerQueue, same_size, is_earliest, insert_timer, add_timer_in_loop, add_timer,
  max_address, new_timer_queue,
}

abbrev pub IsOwned : List (ℕ × Timer) → List Pair → List Pair → Pair → Type 0
IsOwned timers_of timers active e =
    (t : Timer) × (find e.1 timers_of ≡ some t)
    × (t.expiration ≡ e.0)
    × (has (e.1, t.sequence) active ≡ true)

abbrev pub IsKnown : List (ℕ × Timer) → List Pair → Pair → Type 0
IsKnown timers_of timers e =
    (t : Timer) × (find e.0 timers_of ≡ some t)
    × (t.sequence ≡ e.1)
    × (has (t.expiration, e.0) timers ≡ true)

-- `timers` and `active` are sets of one size, a member of either is a live timer that is in the
-- other too, and no address is as large as that of the sentry.
pub record Agree (timers_of : List (ℕ × Timer)) (timers active : List Pair) : Type 0 where
  pub timers_sorted : IsSorted timers
  pub active_sorted : IsSorted active
  pub same_length : length timers ≡ length active
  pub owned : (e : Pair) → has e timers ≡ true → IsOwned timers_of timers active e
  pub known : (e : Pair) → has e active ≡ true → IsKnown timers_of timers e
  pub in_range : All (λ e. ltb e.1 max_address ≡ true) timers

abbrev pub IsValid : TimerQueue → Type 0
IsValid q = Agree q.timers_of q.timers q.active

pub new_timer_queue-IsValid : IsValid new_timer_queue
unfolding new_timer_queue has
new_timer_queue-IsValid = record {
  timers_sorted = tt;
  active_sorted = tt;
  same_length = refl;
  owned = λ e h. cc;
  known = λ e h. cc;
  in_range = tt;
}

-- A live timer of the queue that is in neither set: new, or expired.
pub record IsIdle (p : ℕ) (t : Timer) (q : TimerQueue) : Type 0 where
  pub alive : find p q.timers_of ≡ some t
  pub addressed : ltb p max_address ≡ true
  pub apart : (w : ℕ) → has (w, p) q.timers ≡ false
  pub inactive : (s : ℕ) → has (p, s) q.active ≡ false

-- Timers that live and are in neither set, no two with one address.
abbrev pub AllIdle : List Pair → TimerQueue → Type 0
AllIdle expired q = All (λ e. (t : Timer) × IsIdle e.1 t q) expired

abbrev pub IsDistinct : List Pair → Type 0
IsDistinct [] = Unit
IsDistinct (e ∷ es) = All (λ d. (e.1 == d.1) ≡ false) es × IsDistinct es

unfoldable pub inserted : ℕ → Timer → TimerQueue → TimerQueue
inserted p t q = record q {
  timers = put_in (t.expiration, p) q.timers;
  active = put_in (p, t.sequence) q.active;
}

pair_of : (e : Pair) (a b : ℕ) → same_pair e (a, b) ≡ true → (e.0 ≡ a) × (e.1 ≡ b)
pair_of e a b h = (ground arith, ground arith)

module _ (p : ℕ) (t : Timer) (q : TimerQueue) (v : IsValid q) (i : IsIdle p t q) where
  more_timers : Inserts (t.expiration, p) q.timers (put_in (t.expiration, p) q.timers)
  more_timers =
      (set_insert-Inserts (t.expiration, p) q.timers (i.apart t.expiration) v.timers_sorted).1

  more_active : Inserts (p, t.sequence) q.active (put_in (p, t.sequence) q.active)
  more_active =
      (set_insert-Inserts (p, t.sequence) q.active (i.inactive t.sequence) v.active_sorted).1

  inserted-IsOwned :
      (e : Pair)
      → has e (put_in (t.expiration, p) q.timers) ≡ true
      → IsOwned q.timers_of (put_in (t.expiration, p) q.timers) (put_in (p, t.sequence) q.active) e
  inserted-IsOwned e h = elim (Bool-cases (same_pair e (t.expiration, p))) [
    | inl s ↦
        let (a, b) = pair_of e t.expiration p s in
        (t, rw b i.alive, sym a, rw b (more_active.has_it (p, t.sequence) ∙ ground arith))
    | inr s ↦
        let old : has e q.timers ≡ true = ground (arith, more_timers.has_it e) in
        let (u, f, x, a) = v.owned e old in
        (u, f, x, more_active.has_it (e.1, u.sequence) ∙ ground arith)
  ]

  inserted-IsKnown :
      (e : Pair)
      → has e (put_in (p, t.sequence) q.active) ≡ true
      → IsKnown q.timers_of (put_in (t.expiration, p) q.timers) e
  inserted-IsKnown e h = elim (Bool-cases (same_pair e (p, t.sequence))) [
    | inl s ↦
        let (a, b) = pair_of e p t.sequence s in
        (t, rw a i.alive, sym b, rw a (more_timers.has_it (t.expiration, p) ∙ ground arith))
    | inr s ↦
        let old : has e q.active ≡ true = ground (arith, more_active.has_it e) in
        let (u, f, x, a) = v.known e old in
        (u, f, x, more_timers.has_it (u.expiration, e.0) ∙ ground arith)
  ]

  inserted-IsValid : IsValid (inserted p t q)
  unfolding inserted
  inserted-IsValid = record {
    timers_sorted = more_timers.sorted;
    active_sorted = more_active.sorted;
    same_length = more_timers.longer ∙ ap suc v.same_length ∙ sym more_active.longer;
    owned = inserted-IsOwned;
    known = inserted-IsKnown;
    in_range =
        All-put_in (λ e. ltb e.1 max_address ≡ true) (t.expiration, p) q.timers i.addressed
          v.in_range;
  }

  pub after_add : TimerQueue
  after_add =
      if is_earliest t.expiration q.timers
      then record (inserted p t q) { alarm = some t.expiration }
      else inserted p t q

  after_add-parts :
      (after_add.timers_of ≡ q.timers_of)
      × (after_add.timers ≡ put_in (t.expiration, p) q.timers)
      × (after_add.active ≡ put_in (p, t.sequence) q.active)
      × (after_add.alarm
          ≡ (if is_earliest t.expiration q.timers then some t.expiration else q.alarm))
  unfolding after_add inserted
  after_add-parts = (ground arith, ground arith, ground arith, ground arith)

  -- `insert` keeps the queue valid, and tells whether the alarm has to be set anew.
  pub insert_timer-IsValid :
      (insert_timer p q ≡ some (is_earliest t.expiration q.timers, inserted p t q))
      × (add_timer_in_loop p q ≡ some after_add)
      × IsValid (inserted p t q)
  unfolding insert_timer add_timer_in_loop inserted after_add
  insert_timer-IsValid =
      let same : same_size q ≡ true = ground (arith, v.same_length) in
      let same' : same_size (inserted p t q) ≡ true =
        ground (arith, inserted-IsValid.same_length) in
      let more : set_insert (t.expiration, p) q.timers ≡ some (put_in (t.expiration, p) q.timers) =
        (set_insert-Inserts (t.expiration, p) q.timers (i.apart t.expiration) v.timers_sorted).0 in
      let more' : set_insert (p, t.sequence) q.active ≡ some (put_in (p, t.sequence) q.active) =
        (set_insert-Inserts (p, t.sequence) q.active (i.inactive t.sequence) v.active_sorted).0 in
      (
        rw (i.alive, same, more, more', same') refl,
        rw (i.alive, same, more, more', same') refl,
        inserted-IsValid,
      )

-- What happens to a timer in neither set is nothing to the sets.
pub unaffected_sets :
    (p : ℕ) (old new : List (ℕ × Timer)) (timers active : List Pair)
    → ((j : ℕ) → (p == j) ≡ false → find j new ≡ find j old)
    → ((w : ℕ) → has (w, p) timers ≡ false)
    → ((s : ℕ) → has (p, s) active ≡ false)
    → Agree old timers active
    → Agree new timers active
unaffected_sets p old new timers active f a i v = record {
  timers_sorted = v.timers_sorted;
  active_sorted = v.active_sorted;
  same_length = v.same_length;
  owned = λ e h. elim (Bool-cases (p == e.1)) [
    | inl s ↦ let same : p ≡ e.1 = ground arith in cc (same, a e.0)
    | inr s ↦ let (t, g, x, y) = v.owned e h in (t, f e.1 s ∙ g, x, y)
  ];
  known = λ e h. elim (Bool-cases (p == e.0)) [
    | inl s ↦ let same : p ≡ e.0 = ground arith in cc (same, i e.1)
    | inr s ↦ let (t, g, x, y) = v.known e h in (t, f e.0 s ∙ g, x, y)
  ];
  in_range = v.in_range;
}

-- A timer that does not live is in neither set.
module _ (p : ℕ) (q : TimerQueue) (v : IsValid q) (n : find p q.timers_of ≡ none) where
  fresh-apart : (w : ℕ) → has (w, p) q.timers ≡ false
  fresh-apart w = elim (Bool-cases (has (w, p) q.timers)) [
    | inl h ↦ let (t, f, _, _) = v.owned (w, p) h in cc
    | inr h ↦ h
  ]

  fresh-inactive : (s : ℕ) → has (p, s) q.active ≡ false
  fresh-inactive s = elim (Bool-cases (has (p, s) q.active)) [
    | inl h ↦ let (t, f, _, _) = v.known (p, s) h in cc
    | inr h ↦ h
  ]

  allocated : Timer → TimerQueue
  allocated t = record q { timers_of = insert p t q.timers_of }

  allocated-IsValid : (t : Timer) → IsValid (allocated t)
  unfolding allocated
  allocated-IsValid t =
      unaffected_sets p q.timers_of (insert p t q.timers_of) q.timers q.active
        (λ j h. find-insert p j t q.timers_of ∙ ground arith) fresh-apart fresh-inactive v

  -- A timer with a new address joins the queue, which stays valid, and the alarm is set to it
  -- exactly when it is the first to expire.
  pub add_timer-IsValid :
      (t : Timer)
      → ltb p max_address ≡ true
      → (q' : TimerQueue) × (add_timer p t q ≡ some q')
        × IsValid q'
        × (q'.timers ≡ put_in (t.expiration, p) q.timers)
        × (q'.active ≡ put_in (p, t.sequence) q.active)
        × (find p q'.timers_of ≡ some t)
        × (q'.alarm ≡ (if is_earliest t.expiration q.timers then some t.expiration else q.alarm))
  unfolding add_timer allocated inserted
  add_timer-IsValid t r =
      let alive : find p (insert p t q.timers_of) ≡ some t =
        find-insert p p t q.timers_of ∙ ground arith in
      let idle : IsIdle p t (allocated t) = record {
        alive = alive;
        addressed = r;
        apart = fresh-apart;
        inactive = fresh-inactive;
      } in
      let (_, d, w) = insert_timer-IsValid p t (allocated t) (allocated-IsValid t) idle in
      let (a, b, c, l) = after_add-parts p t (allocated t) (allocated-IsValid t) idle in
      (
        after_add p t (allocated t) (allocated-IsValid t) idle,
        d,
        rw (a, b, c) w,
        b,
        c,
        rw a alive,
        l,
      )
