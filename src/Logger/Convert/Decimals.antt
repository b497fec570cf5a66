-- ===== src/Logger/Convert/Decimals.antt =====
-- `convert` against the decimal printing of the standard library.
use talib.Prelude.{
  decimal, ℕ, zero, suc, ◌+◌, ◌-◌, ◌/◌, ◌%◌, ◌^◌, ◌≤◌, ◌<◌, ◌≡◌, refl, sym, ap, ◌∙◌, inl, inr, true,
  false, some, List, [], ◌∷◌, ◌++◌, append-nil, append_assoc, arith, ltb, ◌==◌, if◌then◌else◌,
  Bool-cases, length, get_elem?, length-append, ℤ, pos, negsuc, magnitude, reverse, reverse-cons,
}
use mathlib.Core.List.{reverse-append}
use talib.Prelude.Decimal.{digits_onto}
use talib.Logger.Convert.{digits, digit_at, tenth, is_zero, convert_loop, convert}

-- The digits of a number from the last to the first; the fuel is for their count.
low_digits : ℕ → ℕ → List ℕ
low_digits zero n = []
low_digits (suc fuel) n =
    let rest = low_digits fuel (n / 10) in (b'0' + n % 10) ∷ (if n / 10 == 0 then [] else rest)

length-low_digits : (fuel n : ℕ) → length (low_digits fuel n) ≤ fuel
unfolding low_digits
length-low_digits zero n = omega arith
length-low_digits (suc fuel) n = ground (arith, length-low_digits fuel (n / 10))

-- Both halves of the table of digits.
upper_half : (d : ℕ) → d < 10 → get_elem? digits (9 + d) ≡ some (b'0' + d)
upper_half zero h = refl
upper_half (suc zero) h = refl
upper_half (suc (suc zero)) h = refl
upper_half (suc (suc (suc zero))) h = refl
upper_half (suc (suc (suc (suc zero)))) h = refl
upper_half (suc (suc (suc (suc (suc zero))))) h = refl
upper_half (suc (suc (suc (suc (suc (suc zero)))))) h = refl
upper_half (suc (suc (suc (suc (suc (suc (suc zero))))))) h = refl
upper_half (suc (suc (suc (suc (suc (suc (suc (suc zero)))))))) h = refl
upper_half (suc (suc (suc (suc (suc (suc (suc (suc (suc zero))))))))) h = refl
upper_half (suc (suc (suc (suc (suc (suc (suc (suc (suc (suc n)))))))))) h = absurd (omega arith)

lower_half : (d : ℕ) → d < 10 → get_elem? digits (9 - d) ≡ some (b'0' + d)
lower_half zero h = refl
lower_half (suc zero) h = refl
lower_half (suc (suc zero)) h = refl
lower_half (suc (suc (suc zero))) h = refl
lower_half (suc (suc (suc (suc zero)))) h = refl
lower_half (suc (suc (suc (suc (suc zero))))) h = refl
lower_half (suc (suc (suc (suc (suc (suc zero)))))) h = refl
lower_half (suc (suc (suc (suc (suc (suc (suc zero))))))) h = refl
lower_half (suc (suc (suc (suc (suc (suc (suc (suc zero)))))))) h = refl
lower_half (suc (suc (suc (suc (suc (suc (suc (suc (suc zero))))))))) h = refl
lower_half (suc (suc (suc (suc (suc (suc (suc (suc (suc (suc n)))))))))) h = absurd (omega arith)

digit_at_lem : (z : ℤ) → digit_at z ≡ some (b'0' + magnitude z % 10)
digit_at_lem (pos n) = upper_half (n % 10) (omega arith)
digit_at_lem (negsuc n) = lower_half (suc n % 10) (omega arith)

magnitude-tenth : (z : ℤ) → magnitude (tenth z) ≡ magnitude z / 10
magnitude-tenth (pos n) = refl
magnitude-tenth (negsuc n) = ground arith

is_zero_lem : (z : ℤ) → is_zero z ≡ (magnitude z == 0)
is_zero_lem (pos n) = refl
is_zero_lem (negsuc n) = ground arith

tenth_fits : (fuel n : ℕ) → n < 10 ^ suc fuel → n / 10 < 10 ^ fuel
tenth_fits fuel n h = omega arith

convert_loop_lem :
    (fuel : ℕ) (z : ℤ)
    → 0 < fuel
    → magnitude z < 10 ^ fuel
    → convert_loop fuel z ≡ some (low_digits fuel (magnitude z))
unfolding convert_loop low_digits
convert_loop_lem zero z p h = absurd (omega arith)
convert_loop_lem (suc fuel) z p h = elim (Bool-cases (magnitude z / 10 == 0)) [
  | inl last ↦ rw (digit_at_lem z, is_zero_lem (tenth z), magnitude-tenth z) (rw last refl)
  | inr more ↦
      let small : magnitude z / 10 < 10 ^ fuel = tenth_fits fuel (magnitude z) h in
      let e : convert_loop fuel (tenth z) ≡ some (low_digits fuel (magnitude z / 10)) =
        convert_loop_lem fuel (tenth z) (left fuel small more) (rw (magnitude-tenth z) small)
        ∙ ap (λ n. some (low_digits fuel n)) (magnitude-tenth z) in
      rw (digit_at_lem z, is_zero_lem (tenth z), magnitude-tenth z) (rw (more, e) refl)
]
  where
    left : (fuel : ℕ) → magnitude z / 10 < 10 ^ fuel → (magnitude z / 10 == 0) ≡ false → 0 < fuel
    left zero s m = absurd (ground arith)
    left (suc fuel) s m = omega arith

reverse-cons-append : (c : ℕ) (s t : List ℕ) → reverse (c ∷ s) ++ t ≡ reverse s ++ c ∷ t
reverse-cons-append c s t = rw (reverse-cons c s) (append_assoc (reverse s) (c ∷ []) t)

reverse-low_digits :
    (fuel gas n : ℕ) (s : List ℕ)
    → 0 < fuel
    → n < 10 ^ fuel
    → n < gas
    → reverse (low_digits fuel n) ++ s ≡ digits_onto gas n s
unfolding low_digits digits_onto
reverse-low_digits zero gas n s p h g = absurd (omega arith)
reverse-low_digits (suc fuel) zero n s p h g = absurd (omega arith)
reverse-low_digits (suc fuel) (suc gas) n s p h g = elim (Bool-cases (ltb n 10)) [
  | inl small ↦
      let d : (n / 10 == 0) ≡ true = ground arith in
      let m : n % 10 ≡ n = ground arith in rw (d, m, small) refl
  | inr large ↦
      let d : (n / 10 == 0) ≡ false = ground arith in
      let small : n / 10 < 10 ^ fuel = tenth_fits fuel n h in
      rw (d, large)
        (reverse-cons-append (b'0' + n % 10) (low_digits fuel (n / 10)) s
          ∙ reverse-low_digits fuel gas (n / 10) ((b'0' + n % 10) ∷ s) (left fuel small d) small
              (ground arith))
]
  where
    left : (fuel : ℕ) → n / 10 < 10 ^ fuel → (n / 10 == 0) ≡ false → 0 < fuel
    left zero s m = absurd (ground arith)
    left (suc fuel) s m = omega arith

-- The sign and the digits of a number.
abbrev pub signed_decimal : ℤ → List ℕ
signed_decimal (pos n) = decimal n
signed_decimal (negsuc n) = b'-' ∷ decimal (suc n)

decimal-low_digits :
    (fuel n : ℕ) → 0 < fuel → n < 10 ^ fuel → reverse (low_digits fuel n) ≡ decimal n
unfolding decimal
decimal-low_digits fuel n p h =
    sym (append-nil (reverse (low_digits fuel n)))
    ∙ reverse-low_digits fuel (suc n) n [] p h (omega arith)

pub length-reverse : (s : List ℕ) → length (reverse s) ≡ length s
length-reverse [] = refl
length-reverse (c ∷ s) =
    ap length (reverse-cons c s)
    ∙ omega (arith, length-append (reverse s) (c ∷ []), length-reverse s)

length-decimal : (n : ℕ) → n < 2 ^ 64 → length (decimal n) ≤ 20
length-decimal n h = omega (
  arith,
  ap length (decimal-low_digits 20 n (omega arith) (omega arith)),
  length-reverse (low_digits 20 n),
  length-low_digits 20 n,
)

-- The loop ends within 20 rounds and stays inside its table of digits, and its bytes reversed are
-- the decimal text of the number, for every value of at most 64 bits, the least negative one
-- included.
pub convert_lem : (z : ℤ) → magnitude z < 2 ^ 64 → convert z ≡ some (signed_decimal z)
unfolding convert
convert_lem (pos n) h =
    rw (convert_loop_lem 20 (pos n) (omega arith) (omega arith), convert)
      (ap some (decimal-low_digits 20 n (omega arith) (omega arith)))
convert_lem (negsuc n) h =
    rw (convert_loop_lem 20 (negsuc n) (omega arith) (omega arith), convert)
      (ap some (
        reverse-append (low_digits 20 (suc n)) (b'-' ∷ [])
        ∙ ap (λ s. b'-' ∷ s) (decimal-low_digits 20 (suc n) (omega arith) (omega arith))))

-- At most 20 digits and a sign.
pub length-signed_decimal : (z : ℤ) → magnitude z < 2 ^ 64 → length (signed_decimal z) ≤ 21
length-signed_decimal (pos n) h = omega (arith, length-decimal n h)
length-signed_decimal (negsuc n) h = omega (arith, length-decimal (suc n) h)
