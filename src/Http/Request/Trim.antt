-- ===== src/Http/Request/Trim.antt =====
-- The value that a header line gives.
use talib.Prelude.{
  ℕ, zero, suc, ◌≡◌, refl, Bool, false, some, List, [], ◌∷◌, arith, length, get_elem?, take,
  length-take,
}
use talib.Http.Request.{is_space, skip_spaces, trim_right}

-- No space at either end.
abbrev pub last_is_space : List ℕ → Bool
last_is_space [] = false
last_is_space (c ∷ []) = is_space c
last_is_space (c ∷ d ∷ s) = last_is_space (d ∷ s)

abbrev pub first_is_space : List ℕ → Bool
first_is_space [] = false
first_is_space (c ∷ s) = is_space c

pub skip_spaces_first : (s : List ℕ) → first_is_space (skip_spaces s) ≡ false
unfolding skip_spaces
skip_spaces_first [] = refl
skip_spaces_first (c ∷ s) = ground (arith, skip_spaces_first s)

last-eq-get :
    (c : ℕ) (s : List ℕ) (d : ℕ)
    → get_elem? (c ∷ s) (length s) ≡ some d
    → last_is_space (c ∷ s) ≡ is_space d
last-eq-get c [] d h = ground arith
last-eq-get c (e ∷ s) d h = last-eq-get e s d h

get-last : (c : ℕ) (s : List ℕ) → (d : ℕ) × (get_elem? (c ∷ s) (length s) ≡ some d)
get-last c [] = (c, refl)
get-last c (e ∷ s) = get-last e s

-- What the loop leaves does not end in a space.
pub trim_right_last : (n : ℕ) (v : List ℕ) → length v ≡ n → last_is_space (trim_right n v) ≡ false
unfolding trim_right
trim_right_last zero [] h = refl
trim_right_last zero (c ∷ s) h = absurd (omega arith)
trim_right_last (suc n) [] h = absurd (omega arith)
trim_right_last (suc n) (c ∷ s) h =
    let (d, e) = get-last c s in
    let e' : length s ≡ n = omega arith in
    ground (
      arith,
      e,
      e',
      last-eq-get c s d e,
      trim_right_last n (take n (c ∷ s)) (omega (arith, length-take n (c ∷ s))),
    )

-- A value that does not end in a space is left as it is.
pub trim_right_id :
    (n : ℕ) (v : List ℕ) → length v ≡ n → last_is_space v ≡ false → trim_right n v ≡ v
unfolding trim_right
trim_right_id zero v h l = refl
trim_right_id (suc n) [] h l = absurd (omega arith)
trim_right_id (suc n) (c ∷ s) h l =
    let (d, e) = get-last c s in
    let e' : length s ≡ n = omega arith in ground (arith, e, e', last-eq-get c s d e)
