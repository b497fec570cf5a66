-- ===== src/Logger/Convert.antt =====
-- src/Logger/LogStream.cpp, `convert` and `convertHex`: the digits of a number, written from the
-- last to the first and then reversed. `none` is a read outside a table of digits.
pub mod Decimals
pub mod Hex
use talib.Prelude.{
  bytes, ℕ, zero, suc, ◌+◌, ◌-◌, ◌/◌, ◌%◌, Bool, true, false, Option, none, some, List, [], ◌∷◌,
  ◌++◌, ◌==◌, if◌then◌else◌, ◌>>=◌, ◌>>◌, get_elem?, ℤ, pos, negsuc, reverse,
}

-- `i % 10` and `i / 10` of a signed number round towards zero; the remainder selects from the table
-- of digits, whose middle is the digit zero.
abbrev pub digits : List ℕ
digits = bytes "9876543210123456789"

abbrev pub digit_at : ℤ → Option ℕ
digit_at (pos n) = get_elem? digits (9 + n % 10)
digit_at (negsuc n) = get_elem? digits (9 - suc n % 10)

abbrev pub tenth : ℤ → ℤ
tenth (pos n) = pos (n / 10)
tenth (negsuc n) = if suc n / 10 == 0 then pos 0 else negsuc (suc n / 10 - 1)

abbrev pub is_zero : ℤ → Bool
is_zero (pos n) = n == 0
is_zero (negsuc n) = false

abbrev pub is_negative : ℤ → Bool
is_negative (pos n) = false
is_negative (negsuc n) = true

-- The do-while loop: the bytes that it stores, in order. The fuel is for its rounds.
pub convert_loop : ℕ → ℤ → Option (List ℕ)
convert_loop zero i = none
convert_loop (suc fuel) i =
    let rest = convert_loop fuel (tenth i) in
    do d ← digit_at i; if is_zero (tenth i) then some (d ∷ []) else (do ds ← rest; some (d ∷ ds))

-- A value of 64 bits has at most 20 digits.
pub convert : ℤ → Option (List ℕ)
unfolding convert_loop
convert value = do
  ds ← convert_loop 20 value
  some (reverse (if is_negative value then ds ++ b'-' ∷ [] else ds))

abbrev pub digits_hex : List ℕ
digits_hex = bytes "0123456789ABCDEF"

pub convert_hex_loop : ℕ → ℕ → Option (List ℕ)
convert_hex_loop zero i = none
convert_hex_loop (suc fuel) i =
    let rest = convert_hex_loop fuel (i / 16) in
    do
      d ← get_elem? digits_hex (i % 16)
      if i / 16 == 0 then some (d ∷ []) else (do ds ← rest; some (d ∷ ds))

-- A `uintptr_t` has at most 16 hexadecimal digits.
pub convert_hex : ℕ → Option (List ℕ)
unfolding convert_hex_loop
convert_hex value = do ds ← convert_hex_loop 16 value; some (reverse ds)
