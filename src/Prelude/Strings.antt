-- ===== src/Prelude/Strings.antt =====
-- `std::string` as a list of bytes, and `std::map` from strings, in the order of its keys.
use Prim.Native.Char.{code}
use Prim.Native.Nat.{ℕ}
use Prim.Native.String.{String}
use mathlib.Core.Path.{◌≡◌, refl}
use mathlib.Core.Logic.{◌↔◌, ◌≢◌}
use mathlib.Core.Bool.{Bool, true, false, ◌&&◌}
use mathlib.Core.List.{List, [], ◌∷◌, ◌++◌}
use mathlib.Core.Option.{Option, none, some}
use native.Mathlib.Omega.{arith}
use talib.Prelude.Tests.{◌==◌, ltb, if◌then◌else◌}
use talib.Prelude.Lists.{All}

-- The bytes of an ASCII text.
abbrev pub bytes : String → List ℕ
bytes String.[] = []
bytes (String.◌∷◌ c s) = code c ∷ bytes s

unfoldable pub str_eq : List ℕ → List ℕ → Bool
str_eq [] [] = true
str_eq [] (d ∷ t) = false
str_eq (c ∷ s) [] = false
str_eq (c ∷ s) (d ∷ t) = c == d && str_eq s t

pub str_eq_iff : (s t : List ℕ) → (str_eq s t ≡ true) ↔ (s ≡ t)
unfolding str_eq
str_eq_iff [] [] = ground arith
str_eq_iff [] (d ∷ t) = ground arith
str_eq_iff (c ∷ s) [] = ground arith
str_eq_iff (c ∷ s) (d ∷ t) = ground (arith, str_eq_iff s t)

pub str_eq_refl : (s : List ℕ) → str_eq s s ≡ true
str_eq_refl s = (str_eq_iff s s).1 refl

-- The order of `std::string`, by unsigned bytes.
unfoldable pub str_lt : List ℕ → List ℕ → Bool
str_lt s [] = false
str_lt [] (d ∷ t) = true
str_lt (c ∷ s) (d ∷ t) = let later = str_lt s t in if c == d then later else ltb c d

-- `std::find` of one byte: what stands before it and behind it, if it is there.
unfoldable pub split_at : ℕ → List ℕ → Option (List ℕ × List ℕ)
split_at c [] = none
split_at c (d ∷ s) =
    if d == c
    then some ([], s)
    else elim (split_at c s) [ none ↦ none | some (before, behind) ↦ some (d ∷ before, behind) ]

pub split_at_first :
    (c : ℕ) (s t : List ℕ) → All (λ d. d ≢ c) s → split_at c (s ++ c ∷ t) ≡ some (s, t)
unfolding split_at
split_at_first c [] t h = ground arith
split_at_first c (d ∷ s) t h = ground (arith, h.0, split_at_first c s t h.1)

pub split_at_absent : (c : ℕ) (s : List ℕ) → All (λ d. d ≢ c) s → split_at c s ≡ none
unfolding split_at
split_at_absent c [] h = refl
split_at_absent c (d ∷ s) h = ground (arith, h.0, split_at_absent c s h.1)

module _ {ℓ} {V : Type ℓ} where
  unfoldable pub lookup : List ℕ → List (List ℕ × V) → Option V
  lookup k [] = none
  lookup k ((j, v) ∷ m) = if str_eq j k then some v else lookup k m

  -- `m[k] = v`: an entry with the key is replaced, a new one goes to its place in the order.
  unfoldable pub assign : List ℕ → V → List (List ℕ × V) → List (List ℕ × V)
  assign k v [] = (k, v) ∷ []
  assign k v ((j, w) ∷ m) =
      if str_eq j k
      then (k, v) ∷ m
      else if str_lt k j
      then (k, v) ∷ (j, w) ∷ m
      else (j, w) ∷ assign k v m

  pub lookup-assign :
      (k j : List ℕ) (v : V) (m : List (List ℕ × V))
      → lookup j (assign k v m) ≡ (if str_eq k j then some v else lookup j m)
  unfolding lookup assign
  lookup-assign k j v [] = refl
  lookup-assign k j v ((i, w) ∷ m) =
      ground (arith, str_eq_iff k j, str_eq_iff i k, str_eq_iff i j, lookup-assign k j v m)
