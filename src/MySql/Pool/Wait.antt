-- ===== src/MySql/Pool/Wait.antt =====
-- A caller that waits for a connection.
use talib.Prelude.{
  ℕ, ◌≡◌, refl, ◌∙◌, subst, inl, inr, Bool, true, false, not, ◌||◌, Option, none, some, List, [],
  ◌∷◌, arith, ◌==◌, if◌then◌else◌, Bool-cases,
}
use talib.MySql.Pool.{
  Slot, Other, releases, looks, look, others, new_pool, try_connection, release_connection,
  wait_connection, get_connection,
}
use talib.MySql.Pool.Use.{
  is_slot, IsPool, Takes, HandsOut, try_connection-Takes, release_connection_lem,
}

release_connection-IsPool :
    (conn : ℕ) (p : List Slot) → IsPool p → IsPool (release_connection conn p)
unfolding release_connection is_slot
release_connection-IsPool conn [] v = tt
release_connection-IsPool conn (s ∷ slots) v = elim (Bool-cases (s.first == conn)) [
  | inl e ↦ rw e v
  | inr e ↦ rw e (
    (release_connection_lem conn s.first slots v.1).1 ∙ v.0,
    release_connection-IsPool conn slots v.1,
  )
]

-- Whether some connection is not in use.
unfoldable pub has_free : List Slot → Bool
has_free [] = false
has_free (s ∷ slots) = not s.second || has_free slots

try-has_free :
    (p : List Slot)
    → has_free p ≡ true
    → (conn : ℕ) × (p' : List Slot) × (try_connection p ≡ some (conn, p'))
unfolding try_connection has_free
try-has_free [] h = absurd (cc h)
try-has_free (s ∷ slots) h = elim (Bool-cases s.second) [
  | inr free ↦ (s.first, record s { second = true } ∷ slots, rw free refl)
  | inl busy ↦
      let h' : has_free slots ≡ true = ground arith in
      let (conn, p', e) = try-has_free slots h' in (conn, s ∷ p', rw (busy, e) refl)
]

try_no_free : (p : List Slot) → has_free p ≡ false → try_connection p ≡ none
unfolding try_connection has_free
try_no_free [] h = refl
try_no_free (s ∷ slots) h =
    let busy : s.second ≡ true = ground arith in
    let h' : has_free slots ≡ false = ground arith in rw (busy, try_no_free slots h') refl

-- The pool as the caller finds it at its first look, at the start or after what the others do in a
-- round, at which some connection is not in use.
abbrev pub first_free : List (List Other) → List Slot → Option (List Slot)
first_free [] p = if has_free p then some p else none
first_free (acts ∷ rounds) p =
    let later = first_free rounds (others acts p) in if has_free p then some p else later

-- What the caller is given: of the pool that it finds it takes a connection that nobody has, marks it
-- and changes no other; or it goes on waiting.
pub Given : Option (List Slot) → List Slot → Option (ℕ × List Slot) → Type 0
Given none p result = result ≡ none
Given (some q) p result =
    (conn : ℕ) × (p' : List Slot) × (result ≡ some (conn, p'))
    × HandsOut conn q p'
    × ((j : ℕ) → is_slot j q ≡ is_slot j p)

takes_free :
    (p : List Slot)
    → IsPool p
    → has_free p ≡ true
    → (conn : ℕ) × (p' : List Slot) × (try_connection p ≡ some (conn, p')) × HandsOut conn p p'
takes_free p v h =
    let (conn, p', e) = try-has_free p h in
    (conn, p', e, subst (Takes p) e (try_connection-Takes p v))

-- What the others leave: a pool of the same slots.
record Leaves (p p' : List Slot) : Type 0 where
  valid : IsPool p'
  same_slots : (j : ℕ) → is_slot j p' ≡ is_slot j p

look-Leaves : (p : List Slot) → IsPool p → Leaves p (look p)
unfolding look
look-Leaves p v = elim (Bool-cases (has_free p)) [
  | inl h ↦
      let (conn, p', e, t) = takes_free p v h in
      rw (look, e) (record { valid = t.valid; same_slots = t.same_slots })
  | inr h ↦ rw (look, try_no_free p h) (record { valid = v; same_slots = λ j. refl })
]

others-Leaves : (acts : List Other) (p : List Slot) → IsPool p → Leaves p (others acts p)
unfolding others
others-Leaves [] p v = record { valid = v; same_slots = λ j. refl }
others-Leaves (releases conn ∷ acts) p v =
    let r = others-Leaves acts (release_connection conn p) (release_connection-IsPool conn p v) in
    record {
      valid = r.valid;
      same_slots = λ j. r.same_slots j ∙ (release_connection_lem conn j p v).1;
    }
others-Leaves (looks ∷ acts) p v =
    let l = look-Leaves p v in
    let r = others-Leaves acts (look p) l.valid in
    record { valid = r.valid; same_slots = λ j. r.same_slots j ∙ l.same_slots j }

-- A later look, seen from before.
Given-later :
    (found : Option (List Slot)) (p p' : List Slot) (r : Option (ℕ × List Slot))
    → Leaves p p'
    → Given found p' r
    → Given found p r
unfolding Given
Given-later none p p' r l g = g
Given-later (some q) p p' r l (conn, p2, e, t, s) = (conn, p2, e, t, λ j. s j ∙ l.same_slots j)

wait-Given :
    (rounds : List (List Other)) (p : List Slot)
    → IsPool p
    → Given (first_free rounds p) p (wait_connection rounds p)
unfolding wait_connection Given
wait-Given [] p v = elim (Bool-cases (has_free p)) [
  | inl h ↦ let (conn, p', e, t) = takes_free p v h in rw h (conn, p', e, t, λ j. refl)
  | inr h ↦ rw h (try_no_free p h)
]
wait-Given (acts ∷ rounds) p v = elim (Bool-cases (has_free p)) [
  | inl h ↦
      let (conn, p', e, t) = takes_free p v h in
      rw h (conn, p', rw (wait_connection, e) refl, t, λ j. refl)
  | inr h ↦
      let l = others-Leaves acts p v in
      rw (wait_connection, h, try_no_free p h)
        (Given-later (first_free rounds (others acts p)) p (others acts p)
          (wait_connection rounds (others acts p)) l (wait-Given rounds (others acts p) l.valid))
]

-- The pool that a call of `getConnection` finds or makes.
abbrev pub pool_of : List ℕ → Option (List Slot) → List Slot
pool_of conns none = new_pool conns
pool_of conns (some p) = p

-- When each connection stands in one slot, and whatever other threads release and take while the
-- caller sleeps, `getConnection` returns exactly when one of its looks finds a connection that is not
-- in use, and at the first such look, on the first call, which makes the pool, and on later ones. Of
-- the pool as it is at that look, which has the same slots, it hands out a connection that nobody has,
-- marks it, and changes no other.
pub get_connection-Given :
    (conns : List ℕ) (rounds : List (List Other)) (pool : Option (List Slot))
    → IsPool (pool_of conns pool)
    → Given
        (first_free rounds (pool_of conns pool))
        (pool_of conns pool)
        (get_connection conns rounds pool)
unfolding get_connection
get_connection-Given conns rounds none v = wait-Given rounds (new_pool conns) v
get_connection-Given conns rounds (some p) v = wait-Given rounds p v
