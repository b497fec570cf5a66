-- ===== src/Http/Context/Faults.antt =====
-- What the parser does with a refused request line when more bytes come, and with a header line
-- that has no colon.
use talib.Prelude.{
  split_at_first, split_at_absent, ℕ, suc, ◌≡◌, refl, sym, ap, ◌∙◌, subst, ◌≢◌, true, false, none,
  some, List, ◌∷◌, ◌++◌, append_assoc, arith, length, take, All, take_left,
}
use talib.Buffer.{Buffer, IsValid, content, find_crlf_in, append}
use talib.Buffer.Space.{Fits}
use talib.Buffer.Input.{append_lem}
use talib.Buffer.Search.{find_crlf_in_line, find_crlf_in-append}
use talib.Http.Request.{HttpRequest, Method, invalid, method_string, set_method}
use talib.Http.Context.{
  HttpContext, got_all, Parse, process_target, process_request_line, header_line, Outcome, done,
  aborts, runs_on, parse_request, set_target, set_version, parse_round, request_line_round,
}
use talib.Http.Context.Bytes.{
  line_effect, parse_bytes, bytes_round_abort, parse_bytes_stop, parse_bytes_abort,
}
use talib.Http.Context.Refines.{SameOutcome, parse_request-SameOutcome}
use talib.Http.Context.Print.{set_method-text, method_no_space}
use talib.Http.Context.RoundTrip.{buffer_done, line_arrived, at_start, in_headers}

abbrev pub line_with : Method → List ℕ → List ℕ
line_with m target = method_string m ++ b' ' ∷ target

-- `setMethod` asserts that no method has been stored before.
set_method_twice : (m : List ℕ) (r : HttpRequest) → r.method ≢ invalid → set_method m r ≡ none
unfolding set_method
set_method_twice m r h = ground arith

second_line_aborts :
    (m : Method) (target : List ℕ) (r : HttpRequest)
    → r.method ≢ invalid
    → process_request_line (line_with m target) r ≡ none
unfolding process_request_line
second_line_aborts m target r h =
    rw (split_at_first b' ' (method_string m) target (method_no_space m), process_request_line)
      (rw (set_method_twice (method_string m) r h))

-- The request with the parts that a refused line has stored.
abbrev left_over : Method → List ℕ → HttpRequest → HttpRequest
left_over m target r = (process_target target (record r { method = m })).1

refused_line :
    (m : Method) (target : List ℕ) (r : HttpRequest)
    → m ≢ invalid
    → r.method ≡ invalid
    → (process_target target (record r { method = m })).0 ≡ false
    → process_request_line (line_with m target) r ≡ some (false, left_over m target r)
unfolding process_request_line
refused_line m target r k e f =
    rw (split_at_first b' ' (method_string m) target (method_no_space m), process_request_line)
      (rw (set_method-text m r k e) (ground (arith, f)))

method-process_target :
    (target : List ℕ) (r : HttpRequest) → (process_target target r).1.method ≡ r.method
unfolding process_target set_target set_version
method-process_target target r = ground arith

abort_of :
    (o : Outcome (Parse Buffer)) (q : Outcome (Parse (List ℕ)))
    → SameOutcome o q
    → q ≡ aborts
    → o ≡ aborts
abort_of o (done q) s h = cc
abort_of o runs_on s h = cc
abort_of (done p) aborts s h = absurd s
abort_of aborts aborts s h = refl
abort_of runs_on aborts s h = absurd s

-- A line that fails the assertion fails it with more bytes behind it too.
stays_aborting :
    (g t : ℕ) (r : HttpRequest) (line rest ys : List ℕ)
    → All (λ d. d ≢ 13) line
    → process_request_line line r ≡ none
    → parse_bytes (suc g) t (at_start r) ((line ++ 13 ∷ 10 ∷ rest) ++ ys) ≡ aborts
stays_aborting g t r line rest ys l e = parse_bytes_abort t (at_start r) whole g (
    bytes_round_abort t (at_start r) whole (length line)
      (find_crlf_in-append (line ++ 13 ∷ 10 ∷ rest) ys (length line)
        (find_crlf_in_line line rest l))
      (unfold line_effect in rw front (rw e)))
  where
    whole : List ℕ
    whole = (line ++ 13 ∷ 10 ∷ rest) ++ ys

    front : take (length line) whole ≡ line
    front = rw append_assoc (take_left (length line) line ((13 ∷ 10 ∷ rest) ++ ys) refl)

-- The refused line ends the first call, and the buffer is as it was.
refused_line_stops :
    (fuel t : ℕ) (m : Method) (target rest : List ℕ) (r : HttpRequest) (b : Buffer)
    → m ≢ invalid
    → r.method ≡ invalid
    → All (λ d. d ≢ 13) (line_with m target)
    → (process_target target (record r { method = m })).0 ≡ false
    → content b ≡ line_with m target ++ 13 ∷ 10 ∷ rest
    → parse_request (suc fuel) t (at_start r) b
      ≡ done (record {
        ok = false;
        has_more = false;
        context = at_start (left_over m target r);
        rest = b;
      })
unfolding parse_request parse_round request_line_round
refused_line_stops fuel t m target rest r b k e l f c =
    rw (found, parse_request, parse_round, request_line_round)
      (rw (line_front, refused_line m target r k e f) refl)
  where
    line : List ℕ
    line = line_with m target

    found : find_crlf_in (content b) ≡ some (length line)
    found = rw c (find_crlf_in_line line rest l)

    line_front : take (length line) (content b) ≡ line
    line_front = rw c (take_left (length line) line (13 ∷ 10 ∷ rest) refl)

-- A request line with a known method and a bad rest is refused, and both the line and its method
-- stay: when more bytes are appended, below 2^31 of them, the next call on this context fails the assertion of
-- `setMethod` and stops the process.
pub refused_line_aborts :
    (fuel g t : ℕ) (m : Method) (target rest ys : List ℕ) (r : HttpRequest) (b : Buffer)
    → Fits (length ys) b
    → m ≢ invalid
    → r.method ≡ invalid
    → All (λ d. d ≢ 13) (line_with m target)
    → (process_target target (record r { method = m })).0 ≡ false
    → content b ≡ line_with m target ++ 13 ∷ 10 ∷ rest
    → (p : Parse Buffer) × (b1 : Buffer) × (parse_request (suc fuel) t (at_start r) b ≡ done p)
      × (p.ok ≡ false)
      × (append ys p.rest ≡ some b1)
      × (parse_request (suc g) t p.context b1 ≡ aborts)
refused_line_aborts fuel g t m target rest ys r b v k e l f c =
    let (b1, d, a) = append_lem ys b v in
    (
      _,
      b1,
      refused_line_stops fuel t m target rest r b k e l f c,
      refl,
      d,
      abort_of _ _
          (subst (SameOutcome (parse_request (suc g) t (at_start left) b1))
            (ap (parse_bytes (suc g) t (at_start left)) (a.bytes_behind ∙ ap (λ z. z ++ ys) c)
              ∙ again)
            (parse_request-SameOutcome (suc g) t (at_start left) b1 a.valid tt))
          refl,
    )
  where
    left : HttpRequest
    left = left_over m target r

    again :
        parse_bytes (suc g) t (at_start left) ((line_with m target ++ 13 ∷ 10 ∷ rest) ++ ys)
        ≡ aborts
    again = stays_aborting g t left (line_with m target) rest ys l (
        second_line_aborts m target left
          (λ h. k (sym (method-process_target target (record r { method = m })) ∙ h)))

header_line_no_colon :
    (line : List ℕ) (c : HttpContext)
    → All (λ d. d ≢ b':') line
    → header_line line c ≡ (false, record c { state = got_all })
unfolding header_line
header_line_no_colon line c h = rw (split_at_absent b':' line h, header_line)

-- Not only the empty line ends the headers: any header line without a colon does. It is dropped, the
-- request counts as complete, and the header lines behind it stay in the buffer.
pub no_colon_ends_headers :
    (fuel t : ℕ) (line rest : List ℕ) (r : HttpRequest) (b : Buffer)
    → IsValid b
    → content b ≡ line ++ 13 ∷ 10 ∷ rest
    → All (λ d. d ≢ 13) line
    → All (λ d. d ≢ b':') line
    → (p : Parse Buffer) × (parse_request (suc fuel) t (in_headers r) b ≡ done p)
      × (p.ok ≡ true)
      × (p.context ≡ record { state = got_all; request = r })
      × (content p.rest ≡ rest)
no_colon_ends_headers fuel t line rest r b v e l n =
    let s : SameOutcome (parse_request (suc fuel) t (in_headers r) b) (done ended) =
      subst (SameOutcome (parse_request (suc fuel) t (in_headers r) b))
        (ap (parse_bytes (suc fuel) t (in_headers r)) e
          ∙ parse_bytes_stop t (in_headers r) (line ++ 13 ∷ 10 ∷ rest) fuel ended
              (line_arrived t (in_headers r) line rest (true, false, ended.context) l
                (unfold line_effect in rw (header_line_no_colon line (in_headers r) n)))
              refl)
        (parse_request-SameOutcome (suc fuel) t (in_headers r) b v tt) in
    let (p, d, s') = buffer_done _ _ s in (p, d, s'.same_ok, s'.same_context, s'.same_bytes)
  where
    ended : Parse (List ℕ)
    ended = record {
      ok = true;
      has_more = false;
      context = record { state = got_all; request = r };
      rest = rest;
    }
