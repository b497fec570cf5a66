-- ===== src/Redis/Command/Whole.antt =====
-- Replies that the parser takes only when they are complete: a status, an error, a number, one element.
use talib.Prelude.{
  decimal, read_digits, ℕ, ◌+◌, ◌<◌, ◌≡◌, refl, sym, ap, ◌∙◌, ◌≢◌, ◌⊎◌, inl, inr, true, false, ◌&&◌,
  Option, none, some, List, [], ◌∷◌, ◌++◌, arith, ltb, ◌==◌, if◌then◌else◌, Bool-cases, length, All,
  length-append, pos, decimal-All,
}
use mathlib.Core.Option.{some-injective}
use talib.Redis.Command.{
  is_timeout, Code, ok, fail, timeout, notfound, Command, line_end, keep, atoi, again, parse_node,
  parse, push_res,
}
use talib.Redis.Command.Reply.{
  line_end_lem, line_end-decimal, atoi-decimal_line, atoi-decimal, item_text, parse_node-item_text,
  digits_in_line,
}

-- The command waits on every beginning of the text, unchanged, and on the whole gives the result.
pub record IsWhole (text : List ℕ) (c : Command) (code : Code) (c' : Command) : Type 0 where
  pub parsed : parse text c ≡ some (code, c')
  pub final : is_timeout code ≡ false
  pub waiting :
      (front back : List ℕ)
      → text ≡ front ++ back
      → 0 < length back
      → parse front c ≡ some (timeout, c)

-- A line ends in the beginning of a text where it ends in the text, or not at all.
abbrev Earlier : List ℕ → List ℕ → List ℕ → List ℕ → Type 0
Earlier s t line rest =
    (line_end s ≡ none)
    ⊎ ((rest' : List ℕ) × (line_end s ≡ some (line, rest')) × (rest ≡ rest' ++ t))

keep-some :
    (c : ℕ) (o : Option (List ℕ × List ℕ)) (line rest : List ℕ)
    → keep c o ≡ some (line, rest)
    → (l : List ℕ) × (o ≡ some (l, rest)) × (line ≡ c ∷ l)
keep-some c none line rest h = cc
keep-some c (some (l, r)) line rest h = (l, cc, cc)

same_parts :
    (a b x y : List ℕ)
    → ◌≡◌ {A = Option (List ℕ × List ℕ)} (some (a, x)) (some (b, y))
    → (a ≡ b) × (x ≡ y)
same_parts a b x y h =
    let p : ◌≡◌ {A = List ℕ × List ℕ} (a, x) (b, y) = some-injective _ _ h in
    (ap (λ (z : List ℕ × List ℕ). z.0) p, ap (λ (z : List ℕ × List ℕ). z.1) p)

line_end-front :
    (s t line rest : List ℕ) → line_end (s ++ t) ≡ some (line, rest) → Earlier s t line rest
unfolding line_end
line_end-front [] t line rest h = inl refl
line_end-front (c ∷ []) t line rest h = inl refl
line_end-front (c ∷ d ∷ s) t line rest h = elim (Bool-cases (c == 0)) [
  | inl e ↦ cc
  | inr e ↦ elim (Bool-cases (c == 13 && d == 10)) [
    | inl k ↦
        let g : ◌≡◌ {A = Option (List ℕ × List ℕ)} (some ([], s ++ t)) (some (line, rest)) =
          ground arith in
        let (p, q) = same_parts [] line (s ++ t) rest g in inr (s, rw (e, k, sym p) refl, sym q)
    | inr k ↦
        let g : keep c (line_end (d ∷ (s ++ t))) ≡ some (line, rest) = ground arith in
        let (l, x, y) = keep-some c (line_end (d ∷ (s ++ t))) line rest g in
        elim (line_end-front (d ∷ s) t l rest x) [
          | inl u ↦ inl (rw (e, k, u) refl)
          | inr (r, u, z) ↦ inr (r, rw (e, k, u) (ap (λ q. some (q, r)) (sym y)), z)
        ]
  ]
]

head_or : ℕ → List ℕ → ℕ
head_or a [] = a
head_or a (b ∷ s) = b

tail_of : List ℕ → List ℕ
tail_of [] = []
tail_of (b ∷ s) = s

same_heads : (a b : ℕ) (s t : List ℕ) → a ∷ s ≡ b ∷ t → (a ≡ b) × (s ≡ t)
unfolding head_or tail_of
same_heads a b s t h = (ap (λ z. head_or a z) h, ap tail_of h)

-- The reply that there is no such element.
abbrev pub nil_text : List ℕ
nil_text = b'$' ∷ b'-' ∷ b'1' ∷ 13 ∷ 10 ∷ []

minus_one_line : All (λ (z : ℕ). (z ≢ 0) × (z ≢ 13)) (b'-' ∷ b'1' ∷ [])
minus_one_line = ((omega arith, omega arith), ((omega arith, omega arith), tt))

module _ (c : Command) where
  -- A reply of one line: nothing in front of its end is an end.
  line_waits :
      (d : ℕ) (line front back : List ℕ)
      → All (λ x. (x ≢ 0) × (x ≢ 13)) line
      → line ++ 13 ∷ 10 ∷ [] ≡ front ++ back
      → 0 < length back
      → line_end front ≡ none
  line_waits d line front back a e h =
      elim (line_end-front front back line [] (ap line_end (sym e) ∙ line_end_lem line [] a)) [
        | inl u ↦ u
        | inr (r, u, z) ↦ absurd (omega (arith, ap length z, length-append r back))
      ]

  -- An element: where its header has ended, bytes of it are missing.
  node_waits :
      (d : ℕ) (item front back : List ℕ)
      → item_text item [] ≡ front ++ back
      → 0 < length back
      → parse_node (d ∷ front) ≡ again
  unfolding parse_node
  node_waits d item front back e h =
      elim (line_end-front front back (decimal (length item)) (item ++ 13 ∷ 10 ∷ [])
        (ap line_end (sym e) ∙ line_end-decimal (length item) (item ++ 13 ∷ 10 ∷ []))) [
          | inl u ↦ rw (u, parse_node) refl
          | inr (r, u, z) ↦
              let short : ltb (length r) (length item + 2) ≡ true =
                ground
                  (arith, ap length z, length-append r back, length-append item (13 ∷ 10 ∷ [])) in
              rw (u, parse_node) (rw (atoi-decimal_line (length item)) (rw short refl))
        ]

  element_waits :
      (item front back : List ℕ)
      → b'$' ∷ item_text item [] ≡ front ++ back
      → 0 < length back
      → parse front c ≡ some (timeout, c)
  unfolding parse
  element_waits item [] back e h = refl
  element_waits item (d ∷ front) back e h =
      let (x, y) = same_heads b'$' d (item_text item []) (front ++ back) e in
      let dollar : (d == b'$') ≡ true = ground arith in
      rw (dollar, node_waits d item front back y h) refl

  -- One element, whatever its bytes are, is stored once, when it is complete.
  pub element-IsWhole :
      (item : List ℕ)
      → IsWhole (b'$' ∷ item_text item []) c ok (record c { res = c.res ++ item ∷ [] })
  unfolding parse push_res
  element-IsWhole item = record {
    parsed = rw (parse_node-item_text b'$' item [], parse) refl;
    final = refl;
    waiting = λ front back e h. element_waits item front back e h;
  }

  -- A reply of one line.
  line_parsed :
      (d : ℕ) (line : List ℕ)
      → All (λ x. (x ≢ 0) × (x ≢ 13)) line
      → parse (d ∷ (line ++ 13 ∷ 10 ∷ [])) c ≡ (
          if d == b'$'
          then parse (d ∷ (line ++ 13 ∷ 10 ∷ [])) c
          else if d == b'+'
          then some (ok, record c { status = pos 1; msg = line })
          else if d == b'-'
          then some (fail, record c { status = pos 1; msg = line })
          else if d == b':'
          then some (ok, record c { status = atoi (line ++ 13 ∷ 10 ∷ []); msg = line })
          else parse (d ∷ (line ++ 13 ∷ 10 ∷ [])) c)
  unfolding parse
  line_parsed d line a = ground (arith, line_end_lem line [] a)

  line_reply_waits :
      (d : ℕ) (line front back : List ℕ)
      → (d == b'$') ≡ false
      → All (λ x. (x ≢ 0) × (x ≢ 13)) line
      → d ∷ (line ++ 13 ∷ 10 ∷ []) ≡ front ++ back
      → 0 < length back
      → parse front c ≡ some (timeout, c)
  unfolding parse
  line_reply_waits d line [] back n a e h = refl
  line_reply_waits d line (x ∷ front) back n a e h =
      let (p, q) = same_heads d x (line ++ 13 ∷ 10 ∷ []) (front ++ back) e in
      let other : (x == b'$') ≡ false = ground arith in
      rw (other, line_waits d line front back a q h) refl

  pub status-IsWhole :
      (line : List ℕ)
      → All (λ x. (x ≢ 0) × (x ≢ 13)) line
      → IsWhole (b'+' ∷ (line ++ 13 ∷ 10 ∷ [])) c ok (record c { status = pos 1; msg = line })
  status-IsWhole line a = record {
    parsed = line_parsed b'+' line a;
    final = refl;
    waiting = λ front back e h. line_reply_waits b'+' line front back refl a e h;
  }

  pub error-IsWhole :
      (line : List ℕ)
      → All (λ x. (x ≢ 0) × (x ≢ 13)) line
      → IsWhole (b'-' ∷ (line ++ 13 ∷ 10 ∷ [])) c fail (record c { status = pos 1; msg = line })
  error-IsWhole line a = record {
    parsed = line_parsed b'-' line a;
    final = refl;
    waiting = λ front back e h. line_reply_waits b'-' line front back refl a e h;
  }

  pub number-IsWhole :
      (n : ℕ)
      → IsWhole
          (b':' ∷ (decimal n ++ 13 ∷ 10 ∷ []))
          c
          ok
          (record c { status = pos n; msg = decimal n })
  number-IsWhole n = record {
    parsed =
        line_parsed b':' (decimal n) (digits_in_line (decimal n) (decimal-All n))
        ∙ rw (atoi-decimal n (10 ∷ [])) refl;
    final = refl;
    waiting = λ front back e h.
        line_reply_waits b':' (decimal n) front back refl
          (digits_in_line (decimal n) (decimal-All n)) e h;
  }

  nil_waits :
      (front back : List ℕ)
      → nil_text ≡ front ++ back
      → 0 < length back
      → parse front c ≡ some (timeout, c)
  unfolding parse parse_node
  nil_waits [] back e h = refl
  nil_waits (d ∷ front) back e h =
      let (x, y) = same_heads b'$' d (b'-' ∷ b'1' ∷ 13 ∷ 10 ∷ []) (front ++ back) e in
      let dollar : (d == b'$') ≡ true = ground arith in
      let none_yet : line_end front ≡ none =
        line_waits d (b'-' ∷ b'1' ∷ []) front back minus_one_line y h in
      rw (dollar, none_yet) refl

  pub nil-IsWhole : IsWhole nil_text c notfound c
  unfolding parse parse_node line_end atoi read_digits
  nil-IsWhole = record { parsed = refl; final = refl; waiting = nil_waits }
