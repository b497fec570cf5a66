-- ===== src/Prelude/PairSet.antt =====
-- `std::set` of pairs of numbers: a list in the order of the pairs, without duplicates.
use Prim.Native.Nat.{ℕ, suc}
use mathlib.Core.Path.{◌≡◌, refl}
use mathlib.Core.Logic.{inl, inr}
use mathlib.Core.Bool.{Bool, true, false, not, ◌&&◌, ◌||◌}
use mathlib.Core.List.{List, [], ◌∷◌}
use mathlib.Core.Option.{Option, none, some}
use native.Mathlib.Omega.{arith}
use talib.Prelude.Tests.{◌==◌, ltb, if◌then◌else◌, Bool-cases}
use talib.Prelude.Lists.{length, All}

abbrev pub Pair : Type 0
Pair = ℕ × ℕ

abbrev pub same_pair : Pair → Pair → Bool
same_pair x y = x.0 == y.0 && x.1 == y.1

-- The order of `std::pair`.
abbrev pub precedes : Pair → Pair → Bool
precedes x y = ltb x.0 y.0 || x.0 == y.0 && ltb x.1 y.1

unfoldable pub has : Pair → List Pair → Bool
has x [] = false
has x (y ∷ s) = same_pair x y || has x s

unfoldable pub put_in : Pair → List Pair → List Pair
put_in x [] = x ∷ []
put_in x (y ∷ s) = let later = put_in x s in if precedes x y then x ∷ y ∷ s else y ∷ later

unfoldable pub taken_out : Pair → List Pair → List Pair
taken_out x [] = []
taken_out x (y ∷ s) = let later = taken_out x s in if same_pair x y then s else y ∷ later

-- `insert`, none if the pair is there already; `erase`, none if it is not there.
unfoldable pub set_insert : Pair → List Pair → Option (List Pair)
unfolding has put_in
set_insert x s = if has x s then none else some (put_in x s)

unfoldable pub set_erase : Pair → List Pair → Option (List Pair)
unfolding has taken_out
set_erase x s = if has x s then some (taken_out x s) else none

abbrev pub IsSorted : List Pair → Type 0
IsSorted [] = Unit
IsSorted (x ∷ s) = All (λ y. precedes x y ≡ true) s × IsSorted s

-- What an insertion and an erasure do to a set.
pub record Inserts (x : Pair) (s s' : List Pair) : Type 0 where
  pub has_it : (z : Pair) → has z s' ≡ (same_pair z x || has z s)
  pub longer : length s' ≡ suc (length s)
  pub sorted : IsSorted s'

pub record Erases (x : Pair) (s s' : List Pair) : Type 0 where
  pub has_it : (z : Pair) → has z s' ≡ (not (same_pair z x) && has z s)
  pub longer : length s ≡ suc (length s')
  pub sorted : IsSorted s'

precedes_trans : (x y z : Pair) → precedes x y ≡ true → precedes y z ≡ true → precedes x z ≡ true
precedes_trans x y z h k = ground arith

All-precedes :
    (x y : Pair) (s : List Pair)
    → precedes x y ≡ true
    → All (λ z. precedes y z ≡ true) s
    → All (λ z. precedes x z ≡ true) s
All-precedes x y [] h a = tt
All-precedes x y (z ∷ s) h a = (precedes_trans x y z h a.0, All-precedes x y s h a.1)

-- A bound of all pairs is no member.
pub has-precedes :
    (x z : Pair) (s : List Pair)
    → All (λ y. precedes x y ≡ true) s
    → same_pair z x ≡ true
    → has z s ≡ false
unfolding has
has-precedes x z [] a e = refl
has-precedes x z (y ∷ s) a e = ground (arith, a.0, has-precedes x z s a.1 e)

pub All-put_in {κ} :
    (P : Pair → Type κ) (x : Pair) (s : List Pair) → P x → All P s → All P (put_in x s)
unfolding put_in
All-put_in P x [] h a = (h, tt)
All-put_in P x (y ∷ s) h a = elim (Bool-cases (precedes x y)) [
  | inl e ↦ rw e (h, a)
  | inr e ↦ rw e (a.0, All-put_in P x s h a.1)
]

All-taken_out {κ} : (P : Pair → Type κ) (x : Pair) (s : List Pair) → All P s → All P (taken_out x s)
unfolding taken_out
All-taken_out P x [] a = tt
All-taken_out P x (y ∷ s) a = elim (Bool-cases (same_pair x y)) [
  | inl e ↦ rw e a.1
  | inr e ↦ rw e (a.0, All-taken_out P x s a.1)
]

pub has-put_in : (x z : Pair) (s : List Pair) → has z (put_in x s) ≡ (same_pair z x || has z s)
unfolding has put_in
has-put_in x z [] = refl
has-put_in x z (y ∷ s) = ground (arith, has-put_in x z s)

length-put_in : (x : Pair) (s : List Pair) → length (put_in x s) ≡ suc (length s)
unfolding put_in
length-put_in x [] = refl
length-put_in x (y ∷ s) = ground (arith, length-put_in x s)

put_in-IsSorted : (x : Pair) (s : List Pair) → has x s ≡ false → IsSorted s → IsSorted (put_in x s)
unfolding has put_in
put_in-IsSorted x [] h a = (tt, tt)
put_in-IsSorted x (y ∷ s) h a = elim (Bool-cases (precedes x y)) [
  | inl e ↦ rw e ((e, All-precedes x y s e a.0), a)
  | inr e ↦
      let behind : precedes y x ≡ true = ground arith in
      rw e (
        All-put_in (λ z. precedes y z ≡ true) x s behind a.0,
        put_in-IsSorted x s (ground arith) a.1,
      )
]

has-taken_out :
    (x z : Pair) (s : List Pair)
    → IsSorted s
    → has z (taken_out x s) ≡ (not (same_pair z x) && has z s)
unfolding has taken_out
has-taken_out x z [] a = ground arith
has-taken_out x z (y ∷ s) a = ground (arith, has-taken_out x z s a.1, has-precedes y z s a.0)

length-taken_out :
    (x : Pair) (s : List Pair) → has x s ≡ true → length s ≡ suc (length (taken_out x s))
unfolding has taken_out
length-taken_out x [] h = cc
length-taken_out x (y ∷ s) h = ground (arith, length-taken_out x s)

taken_out-IsSorted : (x : Pair) (s : List Pair) → IsSorted s → IsSorted (taken_out x s)
unfolding taken_out
taken_out-IsSorted x [] a = tt
taken_out-IsSorted x (y ∷ s) a = elim (Bool-cases (same_pair x y)) [
  | inl e ↦ rw e a.1
  | inr e ↦ rw e (All-taken_out (λ z. precedes y z ≡ true) x s a.0, taken_out-IsSorted x s a.1)
]

-- A pair that is not there is inserted, and one that is there is erased.
pub set_insert-Inserts :
    (x : Pair) (s : List Pair)
    → has x s ≡ false
    → IsSorted s
    → (set_insert x s ≡ some (put_in x s)) × Inserts x s (put_in x s)
unfolding set_insert
set_insert-Inserts x s h a = (
  rw h refl,
  record {
    has_it = λ z. has-put_in x z s;
    longer = length-put_in x s;
    sorted = put_in-IsSorted x s h a;
  },
)

pub set_erase-Erases :
    (x : Pair) (s : List Pair)
    → has x s ≡ true
    → IsSorted s
    → (set_erase x s ≡ some (taken_out x s)) × Erases x s (taken_out x s)
unfolding set_erase
set_erase-Erases x s h a = (
  rw h refl,
  record {
    has_it = λ z. has-taken_out x z s a;
    longer = length-taken_out x s h;
    sorted = taken_out-IsSorted x s a;
  },
)
