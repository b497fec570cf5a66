-- ===== src/Http/Context/Refines.antt =====
-- `parseRequest` over a valid buffer does what the parser over its bytes does, and so it ends.
use talib.Prelude.{
  ℕ, zero, suc, ◌+◌, ◌<◌, ◌≡◌, refl, ◌∙◌, ◌≢◌, inl, inr, Bool, true, false, Option, none, some,
  List, arith, if◌then◌else◌, Bool-cases, Option-cases, length, take, drop,
}
use talib.Buffer.{Buffer, IsValid, content, readable_bytes, find_crlf_in, retrieve_until}
use talib.Buffer.Space.{length-content}
use talib.Buffer.Content.{Retrieves, retrieve_until_lem}
use talib.Buffer.Search.{find_crlf_in_bound}
use talib.Http.Context.{
  HttpContext, ParseState, expect_request_line, expect_headers, expect_body, got_all, Parse, halt,
  Outcome, done, aborts, runs_on, parse_round, parse_request, request_line_round, header_round,
}
use talib.Http.Context.Bytes.{
  IsReading, Progress, line_effect, after_line, bytes_round, parse_bytes, bytes_round_wait,
  bytes_round_line, bytes_round_abort, parse_bytes_abort, parse_bytes-zero, parse_bytes_more,
  parse_bytes_stop, bytes_round-Progress, parse_bytes_ends,
}

-- The same variables, with the buffer's bytes in place of the buffer.
pub record SameParse (p : Parse Buffer) (q : Parse (List ℕ)) : Type 0 where
  pub same_ok : p.ok ≡ q.ok
  pub same_more : p.has_more ≡ q.has_more
  pub same_context : p.context ≡ q.context
  pub valid : IsValid p.rest
  pub same_bytes : content p.rest ≡ q.rest

abbrev pub SameRound : Option (Parse Buffer) → Option (Parse (List ℕ)) → Type 0
SameRound none none = Unit
SameRound (some p) (some q) = SameParse p q
SameRound _ _ = ⊥

abbrev pub SameOutcome : Outcome (Parse Buffer) → Outcome (Parse (List ℕ)) → Type 0
SameOutcome (done p) (done q) = SameParse p q
SameOutcome aborts aborts = Unit
SameOutcome runs_on runs_on = Unit
SameOutcome _ _ = ⊥

round_wait :
    (t : ℕ) (c : HttpContext) (s : ParseState) (b : Buffer)
    → IsReading s
    → find_crlf_in (content b) ≡ none
    → parse_round t s c b ≡ halt true c b
unfolding parse_round
round_wait t c expect_request_line b r e = rw (e, parse_round, request_line_round)
round_wait t c expect_headers b r e = rw (e, parse_round, header_round)
round_wait t c expect_body b r e = absurd r
round_wait t c got_all b r e = absurd r

after_line_buffer : Bool × Bool × HttpContext → Buffer → Buffer → Parse Buffer
after_line_buffer (ok, more, c) whole rest = record {
  ok = ok;
  has_more = more;
  context = c;
  rest = if ok then rest else whole;
}

round_line :
    (t : ℕ) (c : HttpContext) (s : ParseState) (b b' : Buffer) (n : ℕ)
    (e : Bool × Bool × HttpContext)
    → IsReading s
    → find_crlf_in (content b) ≡ some n
    → line_effect t s c (take n (content b)) ≡ some e
    → retrieve_until (n + 2) b ≡ some b'
    → parse_round t s c b ≡ some (after_line_buffer e b b')
unfolding parse_round line_effect after_line_buffer
round_line t c expect_request_line b b' n e r f l u = ground arith
round_line t c expect_headers b b' n e r f l u = ground arith
round_line t c expect_body b b' n e r f l u = absurd r
round_line t c got_all b b' n e r f l u = absurd r

round_abort :
    (t : ℕ) (c : HttpContext) (s : ParseState) (b : Buffer) (n : ℕ)
    → IsReading s
    → find_crlf_in (content b) ≡ some n
    → line_effect t s c (take n (content b)) ≡ none
    → parse_round t s c b ≡ none
unfolding parse_round line_effect
round_abort t c expect_request_line b n r f l = ground arith
round_abort t c expect_headers b n r f l = cc
round_abort t c expect_body b n r f l = absurd r
round_abort t c got_all b n r f l = absurd r

after_line-SameParse :
    (e : Bool × Bool × HttpContext) (b b' : Buffer) (n : ℕ)
    → IsValid b
    → Retrieves n b b'
    → SameParse (after_line_buffer e b b') (after_line e (content b) (drop n (content b)))
unfolding after_line_buffer
after_line-SameParse (true, more, c) b b' n v r = record {
  same_ok = refl;
  same_more = refl;
  same_context = refl;
  valid = r.valid;
  same_bytes = r.bytes_left;
}
after_line-SameParse (false, more, c) b b' n v r = record {
  same_ok = refl;
  same_more = refl;
  same_context = refl;
  valid = v;
  same_bytes = refl;
}

parse_round-SameRound :
    (t : ℕ) (c : HttpContext) (b : Buffer)
    → IsValid b
    → IsReading c.state
    → SameRound (parse_round t c.state c b) (bytes_round t c (content b))
parse_round-SameRound t c b v r = elim (Option-cases (find_crlf_in (content b))) [
  | inl e ↦
      rw (round_wait t c c.state b r e, bytes_round_wait t c (content b) e)
        (record {
          same_ok = refl;
          same_more = refl;
          same_context = refl;
          valid = v;
          same_bytes = refl;
        })
  | inr (n, e) ↦ elim (Option-cases (line_effect t c.state c (take n (content b)))) [
    | inl f ↦ rw (round_abort t c c.state b n r e f, bytes_round_abort t c (content b) n e f) tt
    | inr (eff, f) ↦
        let (b', u, got) =
          retrieve_until_lem (n + 2) b v
            (omega (arith, length-content b v, find_crlf_in_bound (content b) n e)) in
        rw (round_line t c c.state b b' n eff r e f u, bytes_round_line t c (content b) n eff e f)
          (after_line-SameParse eff b b' (n + 2) v got)
  ]
]

abbrev OneMore : ℕ → ℕ → Type 0
OneMore fuel t =
    (c : HttpContext) (b : Buffer)
    → IsValid b
    → IsReading c.state
    → SameOutcome (parse_request fuel t c b) (parse_bytes fuel t c (content b))

request_abort :
    (fuel t : ℕ) (c : HttpContext) (b : Buffer)
    → parse_round t c.state c b ≡ none
    → parse_request (suc fuel) t c b ≡ aborts
unfolding parse_request
request_abort fuel t c b e = rw (e, parse_request)

request_more :
    (fuel t : ℕ) (c : HttpContext) (b : Buffer) (p : Parse Buffer)
    → parse_round t c.state c b ≡ some p
    → p.has_more ≡ true
    → parse_request (suc fuel) t c b ≡ parse_request fuel t p.context p.rest
unfolding parse_request
request_more fuel t c b p e m = rw (e, parse_request) (rw m)

request_stop :
    (fuel t : ℕ) (c : HttpContext) (b : Buffer) (p : Parse Buffer)
    → parse_round t c.state c b ≡ some p
    → p.has_more ≡ false
    → parse_request (suc fuel) t c b ≡ done p
unfolding parse_request
request_stop fuel t c b p e m = rw (e, parse_request) (simp m)

after_round :
    (fuel t : ℕ) (c : HttpContext) (b : Buffer) (xs : List ℕ) (o : Option (Parse Buffer))
    (q : Option (Parse (List ℕ)))
    → OneMore fuel t
    → parse_round t c.state c b ≡ o
    → bytes_round t c xs ≡ q
    → SameRound o q
    → Progress (length xs) q
    → SameOutcome (parse_request (suc fuel) t c b) (parse_bytes (suc fuel) t c xs)
after_round fuel t c b xs none none rec e f s g =
    rw (request_abort fuel t c b e, parse_bytes_abort t c xs fuel f) tt
after_round fuel t c b xs none (some q) rec e f s g = absurd s
after_round fuel t c b xs (some p) none rec e f s g = absurd s
after_round fuel t c b xs (some p) (some q) rec e f s g = elim (Bool-cases q.has_more) [
  | inl more ↦
      rw
        (
          request_more fuel t c b p e (s.same_more ∙ more),
          parse_bytes_more t c xs fuel q f more,
          s.same_context,
          ← s.same_bytes,
        )
        (rec q.context p.rest s.valid (g more).0)
  | inr stop ↦
      rw (request_stop fuel t c b p e (s.same_more ∙ stop), parse_bytes_stop t c xs fuel q f stop) s
]

-- On a valid buffer the parser does to the buffer what the parser over bytes does to its readable
-- bytes: the same result, context and bytes left, or the same failed assertion.
pub parse_request-SameOutcome :
    (fuel t : ℕ) (c : HttpContext) (b : Buffer)
    → IsValid b
    → IsReading c.state
    → SameOutcome (parse_request fuel t c b) (parse_bytes fuel t c (content b))
unfolding parse_request
parse_request-SameOutcome zero t c b v r = rw parse_bytes-zero tt
parse_request-SameOutcome (suc fuel) t c b v r =
    after_round fuel t c b (content b) (parse_round t c.state c b) (bytes_round t c (content b))
      (parse_request-SameOutcome fuel t) refl refl (parse_round-SameRound t c b v r)
      (bytes_round-Progress t c (content b) r)

not_runs_on :
    (o : Outcome (Parse Buffer)) (q : Outcome (Parse (List ℕ)))
    → SameOutcome o q
    → q ≢ runs_on
    → o ≢ runs_on
not_runs_on (done p) q s n = λ h. cc
not_runs_on aborts q s n = λ h. cc
not_runs_on runs_on (done q) s n = absurd s
not_runs_on runs_on aborts s n = absurd s
not_runs_on runs_on runs_on s n = absurd (n refl)

-- From kExpectRequestLine or kExpectHeaders the loop ends: with more fuel than readable bytes it
-- does not run out.
pub parse_request_ends :
    (fuel t : ℕ) (c : HttpContext) (b : Buffer)
    → IsValid b
    → IsReading c.state
    → readable_bytes b < fuel
    → parse_request fuel t c b ≢ runs_on
parse_request_ends fuel t c b v r h =
    not_runs_on _ _ (parse_request-SameOutcome fuel t c b v r)
      (parse_bytes_ends fuel t c (content b) r (omega (arith, length-content b v)))

spin_round :
    (t : ℕ) (s : ParseState) (c : HttpContext) (b : Buffer)
    → ¬ IsReading s
    → parse_round t s c b ≡ some (record { ok = true; has_more = true; context = c; rest = b })
unfolding parse_round
spin_round t expect_request_line c b n = absurd (n tt)
spin_round t expect_headers c b n = absurd (n tt)
spin_round t expect_body c b n = refl
spin_round t got_all c b n = refl

-- In kGotAll, or kExpectBody, no number of rounds is enough: the loop does not end.
pub parse_request_spins :
    (fuel t : ℕ) (c : HttpContext) (b : Buffer)
    → ¬ IsReading c.state
    → parse_request fuel t c b ≡ runs_on
unfolding parse_request
parse_request_spins zero t c b h = refl
parse_request_spins (suc fuel) t c b h =
    request_more fuel t c b _ (spin_round t c.state c b h) refl ∙ parse_request_spins fuel t c b h
