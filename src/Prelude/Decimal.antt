-- ===== src/Prelude/Decimal.antt =====
-- Decimal numbers as the standard library prints and reads them.
use Prim.Native.Nat.{ℕ, zero, suc, ◌+◌, ◌-◌, ◌*◌, ◌/◌, ◌%◌, ◌≤◌, ◌<◌}
use mathlib.Core.Path.{sym, ap, subst, ◌≡◌, refl, ◌∙◌}
use mathlib.Core.Logic.{inl, inr}
use mathlib.Core.Bool.{Bool, true, false, ◌&&◌}
use mathlib.Core.List.{List, [], ◌∷◌, ◌++◌, append_assoc}
use native.Mathlib.Omega.{arith}
use talib.Prelude.Lists.{replicate, length-append, All, length}
use talib.Prelude.Tests.{ltb, leb, if◌then◌else◌, Bool-cases}

abbrev pub is_digit : ℕ → Bool
is_digit c = leb b'0' c && leb c b'9'

-- The digits of a number, in front of a text; the fuel is the number plus one at most.
unfoldable pub digits_onto : ℕ → ℕ → List ℕ → List ℕ
digits_onto zero n s = s
digits_onto (suc fuel) n s =
    let rest = digits_onto fuel (n / 10) ((b'0' + n % 10) ∷ s) in
    if ltb n 10 then (b'0' + n) ∷ s else rest

pub digits_onto-append :
    (fuel n : ℕ) (r s : List ℕ) → digits_onto fuel n r ++ s ≡ digits_onto fuel n (r ++ s)
unfolding digits_onto
digits_onto-append zero n r s = refl
digits_onto-append (suc fuel) n r s = elim (Bool-cases (ltb n 10)) [
  | inl small ↦ rw small
  | inr large ↦ rw large (digits_onto-append fuel (n / 10) ((b'0' + n % 10) ∷ r) s)
]

-- `to_string` and `<<` of an unsigned number.
unfoldable pub decimal : ℕ → List ℕ
unfolding digits_onto
decimal n = digits_onto (suc n) n []

-- The digits that a text begins with, read behind a value.
unfoldable pub read_digits : ℕ → List ℕ → ℕ
read_digits n [] = n
read_digits n (c ∷ s) = if is_digit c then read_digits (n * 10 + (c - b'0')) s else n

pub read-digits_onto :
    (fuel n : ℕ) (s : List ℕ) → n < fuel → read_digits 0 (digits_onto fuel n s) ≡ read_digits n s
unfolding digits_onto read_digits
read-digits_onto zero n s h = absurd (omega arith)
read-digits_onto (suc fuel) n s h = elim (Bool-cases (ltb n 10)) [
  | inl small ↦
      rw small
        (rw (digit n (ground arith)) (let e : 0 * 10 + (b'0' + n - b'0') ≡ n = omega arith in rw e))
  | inr large ↦
      let d : n % 10 < 10 = omega arith in
      rw large (
        read-digits_onto fuel (n / 10) ((b'0' + n % 10) ∷ s) (ground arith)
        ∙ (rw (digit (n % 10) d)
            (let e : n / 10 * 10 + (b'0' + n % 10 - b'0') ≡ n = omega arith in rw e)))
]
  where
    digit : (d : ℕ) → d < 10 → is_digit (b'0' + d) ≡ true
    digit d h = ground arith

-- What is printed is read back, up to the first byte that is no digit.
pub read-decimal :
    (n c : ℕ) (s : List ℕ) → is_digit c ≡ false → read_digits 0 (decimal n ++ c ∷ s) ≡ n
unfolding decimal read_digits
read-decimal n c s h =
    rw (digits_onto-append (suc n) n [] (c ∷ s))
      (read-digits_onto (suc n) n (c ∷ s) (omega arith) ∙ rw h)

pub read-decimal_end : (n : ℕ) → read_digits 0 (decimal n) ≡ n
unfolding decimal read_digits
read-decimal_end n = read-digits_onto (suc n) n [] (omega arith)

pub digits_onto-All :
    (fuel n : ℕ) (s : List ℕ)
    → All (λ c. is_digit c ≡ true) s
    → All (λ c. is_digit c ≡ true) (digits_onto fuel n s)
unfolding digits_onto
digits_onto-All zero n s h = h
digits_onto-All (suc fuel) n s h = elim (Bool-cases (ltb n 10)) [
  | inl small ↦ rw small (ground arith, h)
  | inr large ↦ rw large (
      digits_onto-All fuel (n / 10) ((b'0' + n % 10) ∷ s)
        (let d : n % 10 < 10 = omega arith in ground arith, h))
]

pub decimal-All : (n : ℕ) → All (λ c. is_digit c ≡ true) (decimal n)
unfolding decimal
decimal-All n = digits_onto-All (suc n) n [] tt

digits_onto-head :
    (fuel n c : ℕ) (s : List ℕ) → (d : ℕ) × (t : List ℕ) × (digits_onto fuel n (c ∷ s) ≡ d ∷ t)
unfolding digits_onto
digits_onto-head zero n c s = (c, s, refl)
digits_onto-head (suc fuel) n c s = elim (Bool-cases (ltb n 10)) [
  | inl small ↦ (b'0' + n, c ∷ s, rw small)
  | inr large ↦
      let (d, t, e) = digits_onto-head fuel (n / 10) (b'0' + n % 10) (c ∷ s) in (d, t, rw large e)
]

-- A printed number begins with a digit.
pub decimal-head : (n : ℕ) → (c : ℕ) × (s : List ℕ) × (decimal n ≡ c ∷ s) × (is_digit c ≡ true)
unfolding decimal digits_onto
decimal-head n = elim (Bool-cases (ltb n 10)) [
  | inl small ↦ (b'0' + n, [], rw small, ground arith)
  | inr large ↦
      let (d, t, e) = digits_onto-head n (n / 10) (b'0' + n % 10) [] in
      let e' : decimal n ≡ d ∷ t = rw large e in
      (d, t, e', (subst (All (λ c. is_digit c ≡ true)) e' (decimal-All n)).0)
]

-- 10 to the power of `k`.
abbrev pub tens : ℕ → ℕ
tens zero = 1
tens (suc k) = 10 * tens k

digits_onto-length :
    (k fuel n : ℕ) (s : List ℕ)
    → n < tens (suc k)
    → length (digits_onto fuel n s) ≤ suc k + length s
unfolding digits_onto
digits_onto-length k zero n s h = omega arith
digits_onto-length zero (suc fuel) n s h =
    let small : ltb n 10 ≡ true = ground arith in rw small (omega arith)
digits_onto-length (suc k) (suc fuel) n s h = elim (Bool-cases (ltb n 10)) [
  | inl small ↦ rw small (omega arith)
  | inr large ↦
      rw large
        (omega (arith, digits_onto-length k fuel (n / 10) ((b'0' + n % 10) ∷ s) (omega arith)))
]

-- A number below the power has as many digits at most.
pub length-decimal_below : (k n : ℕ) → n < tens (suc k) → length (decimal n) ≤ suc k
unfolding decimal
length-decimal_below k n h = omega (arith, digits_onto-length k (suc n) n [] h)

-- The last digits of a number, this many.
unfoldable pub fixed_digits : ℕ → ℕ → List ℕ
fixed_digits zero n = []
fixed_digits (suc k) n = fixed_digits k (n / 10) ++ (b'0' + n % 10) ∷ []

digits_onto-fuel : (f g n : ℕ) (s : List ℕ) → n < f → n < g → digits_onto f n s ≡ digits_onto g n s
unfolding digits_onto
digits_onto-fuel zero g n s h k = absurd (omega arith)
digits_onto-fuel (suc f) zero n s h k = absurd (omega arith)
digits_onto-fuel (suc f) (suc g) n s h k = elim (Bool-cases (ltb n 10)) [
  | inl small ↦ rw small refl
  | inr large ↦
      rw large (digits_onto-fuel f g (n / 10) ((b'0' + n % 10) ∷ s) (ground arith) (ground arith))
]

decimal_step : (n : ℕ) → ltb n 10 ≡ false → decimal n ≡ decimal (n / 10) ++ (b'0' + n % 10) ∷ []
unfolding decimal digits_onto
decimal_step n large = rw large (
    digits_onto-fuel n (suc (n / 10)) (n / 10) ((b'0' + n % 10) ∷ []) (ground arith) (omega arith)
    ∙ sym (digits_onto-append (suc (n / 10)) (n / 10) [] ((b'0' + n % 10) ∷ [])))

decimal_small : (n : ℕ) → ltb n 10 ≡ true → decimal n ≡ (b'0' + n) ∷ []
unfolding decimal digits_onto
decimal_small n small = rw small refl

replicate_snoc : (k a : ℕ) → replicate k a ++ a ∷ [] ≡ a ∷ replicate k a
replicate_snoc zero a = refl
replicate_snoc (suc k) a = ap (λ s. a ∷ s) (replicate_snoc k a)

fixed_digits_zero : (k : ℕ) → fixed_digits k 0 ≡ replicate k b'0'
unfolding fixed_digits
fixed_digits_zero zero = refl
fixed_digits_zero (suc k) = ap (λ s. s ++ b'0' ∷ []) (fixed_digits_zero k) ∙ replicate_snoc k b'0'

-- One more digit.
filled_step :
    (k n : ℕ)
    → ltb n 10 ≡ false
    → replicate (suc (suc k) - length (decimal n)) b'0' ++ decimal n
      ≡ (replicate (suc k - length (decimal (n / 10))) b'0' ++ decimal (n / 10))
        ++ (b'0' + n % 10) ∷ []
filled_step k n large =
    let d = (b'0' + n % 10) ∷ [] in
    let one_more : length (decimal n) ≡ length (decimal (n / 10)) + 1 =
      ap length (decimal_step n large) ∙ length-append (decimal (n / 10)) d in
    let width : suc (suc k) - length (decimal n) ≡ suc k - length (decimal (n / 10)) =
      omega (arith, one_more) in
    ap (λ w. replicate w b'0' ++ decimal n) width
    ∙ ap (λ s. replicate (suc k - length (decimal (n / 10))) b'0' ++ s) (decimal_step n large)
    ∙ sym (append_assoc (replicate (suc k - length (decimal (n / 10))) b'0') (decimal (n / 10)) d)

filled_small :
    (k n : ℕ)
    → ltb n 10 ≡ true
    → replicate (suc k - length (decimal n)) b'0' ++ decimal n ≡ fixed_digits (suc k) n
unfolding fixed_digits
filled_small k n small =
    let quotient : n / 10 ≡ 0 = ground arith in
    let rest : n % 10 ≡ n = ground arith in
    let width : suc k - 1 ≡ k = omega arith in
    rw (decimal_small n small, quotient, rest, fixed_digits_zero k, width) refl

-- A number filled up with zeros.
pub filled-fixed_digits :
    (k n : ℕ)
    → n < tens (suc k)
    → replicate (suc k - length (decimal n)) b'0' ++ decimal n ≡ fixed_digits (suc k) n
unfolding fixed_digits
filled-fixed_digits zero n h = filled_small zero n (ground arith)
filled-fixed_digits (suc k) n h = elim (Bool-cases (ltb n 10)) [
  | inl small ↦ filled_small (suc k) n small
  | inr large ↦
      filled_step k n large
      ∙ ap (λ s. s ++ (b'0' + n % 10) ∷ []) (filled-fixed_digits k (n / 10) (omega arith))
]

tens_pos : (k : ℕ) → 0 < tens k
tens_pos zero = omega arith
tens_pos (suc k) = omega (arith, tens_pos k)

decimal_some : (n : ℕ) → 0 < length (decimal n)
decimal_some n = elim (Bool-cases (ltb n 10)) [
  | inl small ↦ omega (arith, ap length (decimal_small n small))
  | inr large ↦ omega (
    arith,
    ap length (decimal_step n large),
    length-append (decimal (n / 10)) ((b'0' + n % 10) ∷ []),
  )
]

-- A number of at least this many digits.
pub length-decimal_above : (k n : ℕ) → tens k ≤ n → k < length (decimal n)
length-decimal_above zero n h = decimal_some n
length-decimal_above (suc k) n h =
    let large : ltb n 10 ≡ false = ground (arith, tens_pos k) in
    let l = length-append (decimal (n / 10)) ((b'0' + n % 10) ∷ []) in
    let e = ap length (decimal_step n large) in
    omega (arith, e, l, length-decimal_above k (n / 10) (omega arith))
