-- ===== src/Buffer/Search.antt =====
-- The search for the end of a line.
use talib.Prelude.{
  ℕ, zero, suc, ◌+◌, ◌≤◌, ◌≡◌, refl, ◌≢◌, some, List, [], ◌∷◌, ◌++◌, arith, length, get_elem?, All,
}
use talib.Buffer.{find_crlf_in}

-- A match found is found again when more bytes follow.
pub find_crlf_in-append :
    (xs ys : List ℕ) (n : ℕ) → find_crlf_in xs ≡ some n → find_crlf_in (xs ++ ys) ≡ some n
unfolding find_crlf_in
find_crlf_in-append [] ys n h = cc
find_crlf_in-append (c ∷ []) ys n h = cc
find_crlf_in-append (c ∷ d ∷ xs) ys zero h = ground arith
find_crlf_in-append (c ∷ d ∷ xs) ys (suc n) h = ground (arith, find_crlf_in-append (d ∷ xs) ys n)

-- A match lies within the bytes.
pub find_crlf_in_bound : (xs : List ℕ) (n : ℕ) → find_crlf_in xs ≡ some n → n + 2 ≤ length xs
unfolding find_crlf_in
find_crlf_in_bound [] n h = cc
find_crlf_in_bound (c ∷ []) n h = cc
find_crlf_in_bound (c ∷ d ∷ xs) zero h = omega arith
find_crlf_in_bound (c ∷ d ∷ xs) (suc n) h = ground (arith, find_crlf_in_bound (d ∷ xs) n)

-- A line with no carriage return ends at the first CRLF behind it.
pub find_crlf_in_line :
    (line rest : List ℕ)
    → All (λ c. c ≢ 13) line
    → find_crlf_in (line ++ 13 ∷ 10 ∷ rest) ≡ some (length line)
unfolding find_crlf_in
find_crlf_in_line [] rest h = refl
find_crlf_in_line (c ∷ []) rest h = ground (arith, h.0)
find_crlf_in_line (c ∷ d ∷ line) rest h = ground (arith, h.0, find_crlf_in_line (d ∷ line) rest h.1)

-- What is found is the first occurrence: the two bytes stand there.
pub find_crlf_in_match :
    (xs : List ℕ) (n : ℕ)
    → find_crlf_in xs ≡ some n
    → (get_elem? xs n ≡ some 13) × (get_elem? xs (suc n) ≡ some 10)
unfolding find_crlf_in
find_crlf_in_match [] n h = cc
find_crlf_in_match (c ∷ []) n h = cc
find_crlf_in_match (c ∷ d ∷ xs) zero h = ground arith
find_crlf_in_match (c ∷ d ∷ xs) (suc n) h = ground (arith, find_crlf_in_match (d ∷ xs) n)
