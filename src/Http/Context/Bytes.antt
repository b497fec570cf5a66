-- ===== src/Http/Context/Bytes.antt =====
-- The parser over a list of bytes: a line is taken off the front when its end has arrived. This is
-- the description that the parser over the buffer is compared with.
use talib.Prelude.{
  ℕ, zero, suc, ◌+◌, ◌≤◌, ◌<◌, ◌≡◌, refl, ◌≢◌, inl, inr, Bool, true, false, Option, none, some,
  List, arith, if◌then◌else◌, Bool-cases, Option-cases, ◌>>=◌, length, take, drop, length-drop,
}
use talib.Buffer.{find_crlf_in}
use talib.Buffer.Search.{find_crlf_in_bound}
use talib.Http.Context.{
  HttpContext, ParseState, expect_request_line, expect_headers, expect_body, got_all, Parse, halt,
  process_request_line, header_line, Outcome, done, aborts, runs_on,
}

-- What the first line does: the context, whether it was accepted, and whether more lines follow.
unfoldable pub line_effect :
    ℕ → ParseState → HttpContext → List ℕ → Option (Bool × Bool × HttpContext)
line_effect t expect_request_line c line = do
  (ok, r) ← process_request_line line c.request
  some (
      if ok
      then (true, true, record { state = expect_headers; request = record r { receive_time = t } })
      else (false, false, record c { request = r }))
line_effect t expect_headers c line = some (true, (header_line line c).0, (header_line line c).1)
line_effect t _ c line = some (true, true, c)

-- A refused request line stays in the buffer.
abbrev pub after_line : Bool × Bool × HttpContext → List ℕ → List ℕ → Parse (List ℕ)
after_line (ok, more, c) whole rest = record {
  ok = ok;
  has_more = more;
  context = c;
  rest = if ok then rest else whole;
}

pub bytes_round : ℕ → HttpContext → List ℕ → Option (Parse (List ℕ))
unfolding line_effect
bytes_round t c xs = elim (find_crlf_in xs) [
  | none ↦ halt true c xs
  | some n ↦ do
    effect ← line_effect t c.state c (take n xs)
    some (after_line effect xs (drop (n + 2) xs))
]

pub parse_bytes : ℕ → ℕ → HttpContext → List ℕ → Outcome (Parse (List ℕ))
parse_bytes zero t c xs = runs_on
parse_bytes (suc fuel) t c xs = elim (bytes_round t c xs) [
  | none ↦ aborts
  | some p ↦ elim p.has_more [ true ↦ parse_bytes fuel t p.context p.rest | false ↦ done p ]
]

-- The states in which `parseRequest` is called.
abbrev pub IsReading : ParseState → Type 0
IsReading expect_request_line = Unit
IsReading expect_headers = Unit
IsReading _ = ⊥

-- A round ends the loop, or leaves fewer bytes and a state that reads on.
abbrev pub Progress : ℕ → Option (Parse (List ℕ)) → Type 0
Progress n none = Unit
Progress n (some p) = (p.has_more ≡ true → IsReading p.context.state × (length p.rest + 2 ≤ n))

pub line_effect-IsReading :
    (t : ℕ) (c : HttpContext) (s : ParseState) (line : List ℕ) (e : Bool × Bool × HttpContext)
    → c.state ≡ s
    → IsReading s
    → line_effect t s c line ≡ some e
    → e.1 ≡ true
    → (e.0 ≡ true) × IsReading e.2.state
unfolding line_effect header_line
line_effect-IsReading t c expect_request_line line e q r h m = ground arith
line_effect-IsReading t c expect_headers line e q r h m = ground arith
line_effect-IsReading t c expect_body line e q r h m = absurd r
line_effect-IsReading t c got_all line e q r h m = absurd r

-- The three ways of a round.
module _ (t : ℕ) (c : HttpContext) (xs : List ℕ) where
  pub bytes_round_wait : find_crlf_in xs ≡ none → bytes_round t c xs ≡ halt true c xs
  unfolding bytes_round
  bytes_round_wait e = rw (e, bytes_round)

  pub bytes_round_line :
      (n : ℕ) (e : Bool × Bool × HttpContext)
      → find_crlf_in xs ≡ some n
      → line_effect t c.state c (take n xs) ≡ some e
      → bytes_round t c xs ≡ some (after_line e xs (drop (n + 2) xs))
  unfolding bytes_round
  bytes_round_line n e p q = rw (p, bytes_round) (rw q)

  pub bytes_round_abort :
      (n : ℕ)
      → find_crlf_in xs ≡ some n
      → line_effect t c.state c (take n xs) ≡ none
      → bytes_round t c xs ≡ none
  unfolding bytes_round
  bytes_round_abort n p q = rw (p, bytes_round) (rw q)

  pub parse_bytes-zero : parse_bytes zero t c xs ≡ runs_on
  unfolding parse_bytes
  parse_bytes-zero = refl

  -- The three ways of the loop after a round.
  pub parse_bytes_abort :
      (fuel : ℕ) → bytes_round t c xs ≡ none → parse_bytes (suc fuel) t c xs ≡ aborts
  unfolding parse_bytes
  parse_bytes_abort fuel e = rw (e, parse_bytes)

  pub parse_bytes_more :
      (fuel : ℕ) (p : Parse (List ℕ))
      → bytes_round t c xs ≡ some p
      → p.has_more ≡ true
      → parse_bytes (suc fuel) t c xs ≡ parse_bytes fuel t p.context p.rest
  unfolding parse_bytes
  parse_bytes_more fuel p e m = rw (e, parse_bytes) (rw m)

  pub parse_bytes_stop :
      (fuel : ℕ) (p : Parse (List ℕ))
      → bytes_round t c xs ≡ some p
      → p.has_more ≡ false
      → parse_bytes (suc fuel) t c xs ≡ done p
  unfolding parse_bytes
  parse_bytes_stop fuel p e m = rw (e, parse_bytes) (simp m)

pub bytes_round-Progress :
    (t : ℕ) (c : HttpContext) (xs : List ℕ)
    → IsReading c.state
    → Progress (length xs) (bytes_round t c xs)
bytes_round-Progress t c xs r = elim (Option-cases (find_crlf_in xs)) [
  | inl e ↦ rw (bytes_round_wait t c xs e) (λ h. cc)
  | inr (n, e) ↦ elim (Option-cases (line_effect t c.state c (take n xs))) [
    | inl f ↦ rw (bytes_round_abort t c xs n e f) tt
    | inr (eff, f) ↦ rw (bytes_round_line t c xs n eff e f) (λ h.
        let (o, i) = line_effect-IsReading t c c.state (take n xs) eff refl r f h in
        (i, rw o (omega (arith, length-drop (n + 2) xs, find_crlf_in_bound xs n e))))
  ]
]

-- A loop over the bytes that have arrived ends within one round for every two bytes.
pub parse_bytes_ends :
    (fuel t : ℕ) (c : HttpContext) (xs : List ℕ)
    → IsReading c.state
    → length xs < fuel
    → parse_bytes fuel t c xs ≢ runs_on
parse_bytes_ends zero t c xs r h = absurd (omega arith)
parse_bytes_ends (suc fuel) t c xs r h =
    go (bytes_round t c xs) refl (bytes_round-Progress t c xs r)
      (λ p i l. parse_bytes_ends fuel t p.context p.rest i (omega arith))
  where
    go :
        (o : Option (Parse (List ℕ)))
        → bytes_round t c xs ≡ o
        → Progress (length xs) o
        → ((p : Parse (List ℕ))
            → IsReading p.context.state
            → length p.rest + 2 ≤ length xs
            → parse_bytes fuel t p.context p.rest ≢ runs_on)
        → parse_bytes (suc fuel) t c xs ≢ runs_on
    go none e q rec = rw (parse_bytes_abort t c xs fuel e) (λ h. cc)
    go (some p) e q rec = elim (Bool-cases p.has_more) [
      | inl more ↦ rw (parse_bytes_more t c xs fuel p e more) (rec p (q more).0 (q more).1)
      | inr stop ↦ rw (parse_bytes_stop t c xs fuel p e stop) (λ h. cc)
    ]
