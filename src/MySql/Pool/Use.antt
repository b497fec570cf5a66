-- ===== src/MySql/Pool/Use.antt =====
-- Who has which connection: what handing out and releasing change.
use talib.Prelude.{
  ℕ, ◌≡◌, refl, sym, ap, ◌∙◌, subst, inl, inr, Bool, true, false, not, ◌&&◌, ◌||◌, Option, none,
  some, List, [], ◌∷◌, arith, ◌==◌, Bool-cases,
}
use talib.MySql.Pool.{Slot, under, try_connection, release_connection}

-- Whether a connection is handed out, and whether it is in the pool at all.
unfoldable pub is_busy : ℕ → List Slot → Bool
is_busy conn [] = false
is_busy conn (s ∷ slots) = s.first == conn && s.second || is_busy conn slots

unfoldable pub is_slot : ℕ → List Slot → Bool
is_slot conn [] = false
is_slot conn (s ∷ slots) = s.first == conn || is_slot conn slots

-- Each connection stands in one slot.
abbrev pub IsPool : List Slot → Type 0
IsPool [] = Unit
IsPool (s ∷ slots) = (is_slot s.first slots ≡ false) × IsPool slots

busy_slot : (conn : ℕ) (p : List Slot) → is_slot conn p ≡ false → is_busy conn p ≡ false
unfolding is_busy is_slot
busy_slot conn [] h = refl
busy_slot conn (s ∷ slots) h = ground (arith, busy_slot conn slots)

slot_ne : (i j : ℕ) (p : List Slot) → is_slot i p ≡ false → is_slot j p ≡ true → (i == j) ≡ false
slot_ne i j p a b = elim (Bool-cases (i == j)) [
  | inl e ↦ let q : i ≡ j = ground arith in absurd (go (sym a ∙ ap (λ z. is_slot z p) q ∙ b))
  | inr e ↦ e
]
  where
    go : false ≡ true → ⊥
    go h = cc

-- What a round that hands out a connection does.
pub record HandsOut (conn : ℕ) (p p' : List Slot) : Type 0 where
  pub was_free : is_busy conn p ≡ false
  pub was_slot : is_slot conn p ≡ true
  pub same_slots : (j : ℕ) → is_slot j p' ≡ is_slot j p
  pub now_busy : (j : ℕ) → is_busy j p' ≡ (conn == j || is_busy j p)
  pub valid : IsPool p'

-- A round takes a connection that nobody has, marks it, and changes no other; it finds none exactly
-- when every connection is handed out.
abbrev pub Takes : List Slot → Option (ℕ × List Slot) → Type 0
Takes p none = (j : ℕ) → is_busy j p ≡ is_slot j p
Takes p (some (conn, p')) = HandsOut conn p p'

later-Takes :
    (s : Slot) (slots : List Slot) (o : Option (ℕ × List Slot))
    → IsPool (s ∷ slots)
    → s.second ≡ true
    → Takes slots o
    → Takes (s ∷ slots) (under s o)
unfolding is_busy is_slot
later-Takes s slots none v b t = λ j. ground (arith, t j)
later-Takes s slots (some (conn, p')) v b t = record {
  was_free = ground (arith, t.was_free, slot_ne s.first conn slots v.0 t.was_slot);
  was_slot = ground (arith, t.was_slot);
  same_slots = λ j. ground (arith, t.same_slots j);
  now_busy = λ j. ground (arith, t.now_busy j);
  valid = (t.same_slots s.first ∙ v.0, t.valid);
}

first-Takes :
    (s : Slot) (slots : List Slot)
    → IsPool (s ∷ slots)
    → s.second ≡ false
    → Takes (s ∷ slots) (some (s.first, record s { second = true } ∷ slots))
unfolding is_busy is_slot
first-Takes s slots v b = record {
  was_free = ground (arith, busy_slot s.first slots v.0);
  was_slot = ground arith;
  same_slots = λ j. refl;
  now_busy = λ j. ground arith;
  valid = v;
}

-- A round of `getConnection` on a pool with each connection in one slot hands out a connection that
-- nobody has, marks it and changes no other; it finds none only where every connection is handed
-- out.
pub try_connection-Takes : (p : List Slot) → IsPool p → Takes p (try_connection p)
unfolding try_connection is_busy is_slot
try_connection-Takes [] v = λ j. refl
try_connection-Takes (s ∷ slots) v = elim (Bool-cases s.second) [
  | inl b ↦
      let e : try_connection (s ∷ slots) ≡ under s (try_connection slots) = ground (arith, b) in
      subst (Takes (s ∷ slots)) (sym e)
        (later-Takes s slots (try_connection slots) v b (try_connection-Takes slots v.1))
  | inr b ↦
      let e : try_connection (s ∷ slots) ≡ some (s.first, record s { second = true } ∷ slots) =
        ground (arith, b) in
      subst (Takes (s ∷ slots)) (sym e) (first-Takes s slots v b)
]

-- A release frees that connection and changes no other.
pub release_connection_lem :
    (conn j : ℕ) (p : List Slot)
    → IsPool p
    → (is_busy j (release_connection conn p) ≡ (not (conn == j) && is_busy j p))
      × (is_slot j (release_connection conn p) ≡ is_slot j p)
unfolding release_connection is_busy is_slot
release_connection_lem conn j [] v = (ground arith, refl)
release_connection_lem conn j (s ∷ slots) v =
    ground (arith, busy_slot s.first slots v.0, release_connection_lem conn j slots v.1)
