-- ===== src/Prelude/Table.antt =====
-- `std::unordered_map` from strings as an association list.
use Prim.Native.Nat.{ℕ, suc}
use mathlib.Core.Path.{◌≡◌, refl}
use mathlib.Core.Logic.{inl, inr}
use mathlib.Core.List.{List, [], ◌∷◌}
use mathlib.Core.Option.{Option, none, some}
use native.Mathlib.Omega.{arith}
use talib.Prelude.Tests.{if◌then◌else◌, Bool-cases}
use talib.Prelude.Lists.{length}
use talib.Prelude.Strings.{str_eq, str_eq_iff}

module _ {ℓ} {V : Type ℓ} where
  unfoldable pub look_up : List ℕ → List (List ℕ × V) → Option V
  look_up k [] = none
  look_up k ((j, v) ∷ m) = if str_eq j k then some v else look_up k m

  unfoldable pub put : List ℕ → V → List (List ℕ × V) → List (List ℕ × V)
  put k v [] = (k, v) ∷ []
  put k v ((j, w) ∷ m) = if str_eq j k then (k, v) ∷ m else (j, w) ∷ put k v m

  unfoldable pub take_away : List ℕ → List (List ℕ × V) → List (List ℕ × V)
  take_away k [] = []
  take_away k ((j, w) ∷ m) = let rest = take_away k m in if str_eq j k then m else (j, w) ∷ rest

  -- No key stands in it twice.
  abbrev pub IsUnique : List (List ℕ × V) → Type ℓ
  IsUnique [] = Unit
  IsUnique ((j, w) ∷ m) = (look_up j m ≡ none) × IsUnique m

  pub look_up-put :
      (k j : List ℕ) (v : V) (m : List (List ℕ × V))
      → look_up j (put k v m) ≡ (if str_eq k j then some v else look_up j m)
  unfolding look_up put
  look_up-put k j v [] = refl
  look_up-put k j v ((i, w) ∷ m) =
      ground (arith, str_eq_iff k j, str_eq_iff i k, str_eq_iff i j, look_up-put k j v m)

  pub look_up-take_away :
      (k j : List ℕ) (m : List (List ℕ × V))
      → IsUnique m
      → look_up j (take_away k m) ≡ (if str_eq k j then none else look_up j m)
  unfolding look_up take_away
  look_up-take_away k j [] u = ground arith
  look_up-take_away k j ((i, w) ∷ m) u =
      ground
        (arith, u.0, str_eq_iff k j, str_eq_iff i k, str_eq_iff i j, look_up-take_away k j m u.1)

  pub put-IsUnique :
      (k : List ℕ) (v : V) (m : List (List ℕ × V)) → IsUnique m → IsUnique (put k v m)
  unfolding put look_up
  put-IsUnique k v [] u = (refl, tt)
  put-IsUnique k v ((i, w) ∷ m) u = elim (Bool-cases (str_eq i k)) [
    | inl e ↦ rw e (ground (arith, u.0, str_eq_iff i k), u.1)
    | inr e ↦ rw e (
      ground (arith, u.0, str_eq_iff i k, str_eq_iff k i, look_up-put k i v m),
      put-IsUnique k v m u.1,
    )
  ]

  pub take_away-IsUnique :
      (k : List ℕ) (m : List (List ℕ × V)) → IsUnique m → IsUnique (take_away k m)
  unfolding take_away
  take_away-IsUnique k [] u = tt
  take_away-IsUnique k ((i, w) ∷ m) u = elim (Bool-cases (str_eq i k)) [
    | inl e ↦ rw e u.1
    | inr e ↦ rw e (ground (arith, u.0, look_up-take_away k i m u.1), take_away-IsUnique k m u.1)
  ]

  pub length-put :
      (k : List ℕ) (v : V) (m : List (List ℕ × V))
      → look_up k m ≡ none
      → length (put k v m) ≡ suc (length m)
  unfolding look_up put
  length-put k v [] h = refl
  length-put k v ((i, w) ∷ m) h = ground (arith, length-put k v m)

  pub length-take_away :
      (k : List ℕ) (v : V) (m : List (List ℕ × V))
      → look_up k m ≡ some v
      → length m ≡ suc (length (take_away k m))
  unfolding look_up take_away
  length-take_away k v [] h = cc
  length-take_away k v ((i, w) ∷ m) h = ground (arith, length-take_away k v m)
