-- ===== src/Logger/Convert/Hex.antt =====
-- `convertHex` and the value of a text of hexadecimal digits.
use talib.Prelude.{
  ℕ, zero, suc, ◌+◌, ◌-◌, ◌*◌, ◌/◌, ◌%◌, ◌^◌, ◌≤◌, ◌<◌, ◌≡◌, refl, ap, ◌∙◌, inl, inr, false, some,
  List, [], ◌∷◌, arith, ltb, leb, ◌==◌, if◌then◌else◌, Bool-cases, length, get_elem?, reverse,
}
use mathlib.Core.List.{reverse-reverse}
use talib.Logger.Convert.{digits_hex, convert_hex_loop, convert_hex}
use talib.Logger.Convert.Decimals.{length-reverse}

pub hex_digit : ℕ → ℕ
hex_digit d = if ltb d 10 then b'0' + d else b'A' + d - 10

pub hex_value : ℕ → ℕ
hex_value c = if leb c b'9' then c - b'0' else c + 10 - b'A'

-- The number of a text of digits, its last digit first.
pub low_value : List ℕ → ℕ
unfolding hex_value
low_value [] = 0
low_value (c ∷ s) = hex_value c + 16 * low_value s

table_hex : (d : ℕ) → d < 16 → get_elem? digits_hex d ≡ some (hex_digit d)
unfolding hex_digit
table_hex zero h = refl
table_hex (suc zero) h = refl
table_hex (suc (suc zero)) h = refl
table_hex (suc (suc (suc zero))) h = refl
table_hex (suc (suc (suc (suc zero)))) h = refl
table_hex (suc (suc (suc (suc (suc zero))))) h = refl
table_hex (suc (suc (suc (suc (suc (suc zero)))))) h = refl
table_hex (suc (suc (suc (suc (suc (suc (suc zero))))))) h = refl
table_hex (suc (suc (suc (suc (suc (suc (suc (suc zero)))))))) h = refl
table_hex (suc (suc (suc (suc (suc (suc (suc (suc (suc zero))))))))) h = refl
table_hex (suc (suc (suc (suc (suc (suc (suc (suc (suc (suc zero)))))))))) h = refl
table_hex (suc (suc (suc (suc (suc (suc (suc (suc (suc (suc (suc zero))))))))))) h = refl
table_hex (suc (suc (suc (suc (suc (suc (suc (suc (suc (suc (suc (suc zero)))))))))))) h = refl
table_hex (suc (suc (suc (suc (suc (suc (suc (suc (suc (suc (suc (suc (suc zero))))))))))))) h =
    refl
table_hex (suc (suc (suc (suc (suc (suc (suc (suc (suc (suc (suc (suc (suc (suc zero))))))))))))))
      h =
    refl
table_hex
      (suc (suc (suc (suc (suc (suc (suc (suc (suc (suc (suc (suc (suc (suc (suc zero)))))))))))))))
      h =
    refl
table_hex
      (suc
        (suc (suc (suc (suc (suc (suc (suc (suc (suc (suc (suc (suc (suc (suc (suc n))))))))))))))))
      h =
    absurd (omega arith)

hex_value-hex_digit : (d : ℕ) → d < 16 → hex_value (hex_digit d) ≡ d
unfolding hex_value hex_digit
hex_value-hex_digit d h = ground arith

sixteenth_fits : (fuel n : ℕ) → n < 16 ^ suc fuel → n / 16 < 16 ^ fuel
sixteenth_fits fuel n h = omega arith

convert_hex_loop_lem :
    (fuel n : ℕ)
    → 0 < fuel
    → n < 16 ^ fuel
    → (ds : List ℕ) × (convert_hex_loop fuel n ≡ some ds) × (length ds ≤ fuel) × (low_value ds ≡ n)
unfolding convert_hex_loop low_value
convert_hex_loop_lem zero n p h = absurd (omega arith)
convert_hex_loop_lem (suc fuel) n p h = elim (Bool-cases (n / 16 == 0)) [
  | inl last ↦ (
    hex_digit (n % 16) ∷ [],
    rw (table_hex (n % 16) (omega arith)) (rw last refl),
    omega arith,
    ground (arith, last, hex_value-hex_digit (n % 16) (omega arith)),
  )
  | inr more ↦
      let small : n / 16 < 16 ^ fuel = sixteenth_fits fuel n h in
      let (ds, e, l, v) = convert_hex_loop_lem fuel (n / 16) (left fuel small more) small in
      (
        hex_digit (n % 16) ∷ ds,
        rw (table_hex (n % 16) (omega arith)) (rw (more, e) refl),
        omega arith,
        omega (arith, v, hex_value-hex_digit (n % 16) (omega arith)),
      )
]
  where
    left : (fuel : ℕ) → n / 16 < 16 ^ fuel → (n / 16 == 0) ≡ false → 0 < fuel
    left zero s m = absurd (ground arith)
    left (suc fuel) s m = omega arith

-- `convertHex` ends, stays inside its table, and writes at most 16 digits whose value is the pointer.
pub convert_hex_lem :
    (n : ℕ)
    → n < 2 ^ 64
    → (ds : List ℕ) × (convert_hex n ≡ some ds) × (length ds ≤ 16) × (low_value (reverse ds) ≡ n)
unfolding convert_hex
convert_hex_lem n h =
    let (ds, e, l, v) = convert_hex_loop_lem 16 n (omega arith) (omega arith) in
    (
      reverse ds,
      rw (e, convert_hex) refl,
      omega (arith, length-reverse ds),
      ap low_value (reverse-reverse ds) ∙ v,
    )
