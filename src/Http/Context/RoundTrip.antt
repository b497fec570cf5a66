-- ===== src/Http/Context/RoundTrip.antt =====
-- The parser on the text of a well-formed request, and on a request that arrives in two pieces,
-- over the buffer itself.
use talib.Prelude.{
  ℕ, zero, suc, ◌+◌, ◌<◌, ◌≡◌, refl, sym, ap, ◌∙◌, subst, ◌≢◌, Bool, true, false, some, List, [],
  ◌∷◌, ◌++◌, arith, length, drop, All, take_left, drop_left, drop-drop,
}
use talib.Buffer.{Buffer, IsValid, content}
use talib.Buffer.Search.{find_crlf_in_line}
use talib.Http.Request.{HttpRequest, invalid}
use talib.Http.Context.{
  HttpContext, expect_request_line, expect_headers, got_all, Parse, Outcome, done, aborts, runs_on,
  parse_request,
}
use talib.Http.Context.Bytes.{
  IsReading, line_effect, after_line, bytes_round, parse_bytes, bytes_round_line, parse_bytes_more,
  parse_bytes_stop,
}
use talib.Http.Context.Refines.{SameParse, SameOutcome, parse_request-SameOutcome}
use talib.Http.Context.Chunks.{parse_bytes_chunks}
use talib.Http.Context.Print.{
  Header, Parts, IsHeader, IsRequest, request_line, header_text, headers_text, request_text,
  with_line, with_header, with_headers, process_request_line-text, header_line-text,
  header_line_empty,
}

-- A round on a line whose end has come.
pub line_arrived :
    (t : ℕ) (c : HttpContext) (line rest : List ℕ) (e : Bool × Bool × HttpContext)
    → All (λ d. d ≢ 13) line
    → line_effect t c.state c line ≡ some e
    → bytes_round t c (line ++ 13 ∷ 10 ∷ rest) ≡ some (after_line e (line ++ 13 ∷ 10 ∷ rest) rest)
line_arrived t c line rest e h q =
    bytes_round_line t c (line ++ 13 ∷ 10 ∷ rest) (length line) e (find_crlf_in_line line rest h)
      (rw (take_left (length line) line (13 ∷ 10 ∷ rest) refl) q)
    ∙ ap (λ z. some (after_line e (line ++ 13 ∷ 10 ∷ rest) z)) behind
  where
    behind : drop (length line + 2) (line ++ 13 ∷ 10 ∷ rest) ≡ rest
    behind =
        sym (drop-drop 2 (length line) (length line + 2) (line ++ 13 ∷ 10 ∷ rest) refl)
        ∙ ap (drop 2) (drop_left (length line) line (13 ∷ 10 ∷ rest) refl)

abbrev pub in_headers : HttpRequest → HttpContext
in_headers r = record { state = expect_headers; request = r }

abbrev pub at_start : HttpRequest → HttpContext
at_start r = record { state = expect_request_line; request = r }

abbrev finished : HttpRequest → List ℕ → Parse (List ℕ)
finished r rest = record {
  ok = true;
  has_more = false;
  context = record { state = got_all; request = r };
  rest = rest;
}

parse_headers :
    (fuel t : ℕ) (r : HttpRequest) (hs : List Header) (rest : List ℕ)
    → All IsHeader hs
    → length hs < fuel
    → parse_bytes fuel t (record { state = expect_headers; request = r }) (headers_text hs rest)
      ≡ done (finished (with_headers hs r) rest)
parse_headers zero t r hs rest h f = absurd (omega arith)
parse_headers (suc fuel) t r [] rest h f =
    parse_bytes_stop t _ (13 ∷ 10 ∷ rest) fuel (finished r rest)
      (line_arrived t (in_headers r) [] rest (true, false, record { state = got_all; request = r })
        tt (unfold line_effect in rw header_line_empty))
      refl
parse_headers (suc fuel) t r (x ∷ hs) rest h f =
    parse_bytes_more t _ (headers_text (x ∷ hs) rest) fuel _
      (line_arrived t (in_headers r) (header_text x) (headers_text hs rest)
        (true, true, record { state = expect_headers; request = with_header x r }) h.0.one_line
        (unfold line_effect in rw (header_line-text x _ h.0)))
      refl
    ∙ parse_headers fuel t (with_header x r) hs rest h.1 (omega arith)

-- The request that a well-formed text gives to an empty request.
abbrev pub parsed : ℕ → Parts → HttpRequest → HttpRequest
parsed t p r = with_headers p.headers (record (with_line p r) { receive_time = t })

pub parse_bytes-request_text :
    (fuel t : ℕ) (r : HttpRequest) (p : Parts) (rest : List ℕ)
    → IsRequest p
    → r.method ≡ invalid
    → length p.headers + 1 < fuel
    → parse_bytes fuel t (record { state = expect_request_line; request = r }) (request_text p rest)
      ≡ done (finished (parsed t p r) rest)
parse_bytes-request_text zero t r p rest h m f = absurd (omega arith)
parse_bytes-request_text (suc fuel) t r p rest h m f =
    parse_bytes_more t _ (request_text p rest) fuel _
      (line_arrived t (at_start r) (request_line p) (headers_text p.headers rest)
        (
          true,
          true,
          record { state = expect_headers; request = record (with_line p r) { receive_time = t } },
        )
        h.one_line (unfold line_effect in rw (process_request_line-text p r h m)))
      refl
    ∙ parse_headers fuel t _ p.headers rest h.headers_plain (omega arith)

-- What a run over bytes says of the run over a buffer with those bytes.
pub buffer_done :
    (o : Outcome (Parse Buffer)) (q : Parse (List ℕ))
    → SameOutcome o (done q)
    → (p : Parse Buffer) × (o ≡ done p) × SameParse p q
buffer_done (done p) q s = (p, refl, s)
buffer_done aborts q s = absurd s
buffer_done runs_on q s = absurd s

pub bytes_done :
    (p : Parse Buffer) (o : Outcome (Parse (List ℕ)))
    → SameOutcome (done p) o
    → (q : Parse (List ℕ)) × (o ≡ done q) × SameParse p q
bytes_done p (done q) s = (q, refl, s)
bytes_done p aborts s = absurd s
bytes_done p runs_on s = absurd s

-- A buffer that holds the text of a well-formed request, and whatever follows it, is parsed to that
-- request: method, target, version, the headers as they come, and the time of receipt.
-- The bytes behind the empty line stay in the buffer. The buffer is valid, the context expects a
-- request line and has no method yet, and the fuel is for more rounds than the request has lines.
pub parse_request-request_text :
    (fuel t : ℕ) (r : HttpRequest) (b : Buffer) (p : Parts) (rest : List ℕ)
    → IsValid b
    → content b ≡ request_text p rest
    → IsRequest p
    → r.method ≡ invalid
    → length p.headers + 1 < fuel
    → (q : Parse Buffer) × (parse_request fuel t
          (record { state = expect_request_line; request = r })
          b
        ≡ done q)
      × (q.ok ≡ true)
      × (q.context ≡ record { state = got_all; request = parsed t p r })
      × (content q.rest ≡ rest)
parse_request-request_text fuel t r b p rest v e h m f =
    let s : SameOutcome (parse_request fuel t c b) (done (finished (parsed t p r) rest)) =
      subst (SameOutcome (parse_request fuel t c b))
        (ap (parse_bytes fuel t c) e ∙ parse_bytes-request_text fuel t r p rest h m f)
        (parse_request-SameOutcome fuel t c b v tt) in
    let (q, d, s') = buffer_done _ _ s in (q, d, s'.same_ok, s'.same_context, s'.same_bytes)
  where
    c : HttpContext
    c = record { state = expect_request_line; request = r }

-- A request in two pieces: `b` holds the first, the parser accepts it and waits; `b1` is what is
-- left with the second piece behind it; `b2` holds both pieces from the start. Then the run on `b2`
-- ends as the two runs do: the same result, context and bytes left.
pub parse_request_chunks :
    (f g t : ℕ) (c : HttpContext) (b b1 b2 : Buffer) (ys : List ℕ) (p q : Parse Buffer)
    → IsValid b
    → IsValid b1
    → IsValid b2
    → IsReading c.state
    → parse_request f t c b ≡ done p
    → p.ok ≡ true
    → IsReading p.context.state
    → content b1 ≡ content p.rest ++ ys
    → content b2 ≡ content b ++ ys
    → parse_request g t p.context b1 ≡ done q
    → (q' : Parse Buffer) × (parse_request (f + g) t c b2 ≡ done q')
      × (q'.ok ≡ q.ok)
      × (q'.context ≡ q.context)
      × (content q'.rest ≡ content q.rest)
parse_request_chunks f g t c b b1 b2 ys p q v v1 v2 i d o w e1 e2 d1 =
    let (p', dp, sp) = bytes_done p _ (
      subst (λ z. SameOutcome z (parse_bytes f t c (content b))) d
        (parse_request-SameOutcome f t c b v i)) in
    let (q', dq, sq) = bytes_done q _ (
      subst (λ z. SameOutcome z (parse_bytes g t p.context (content b1))) d1
        (parse_request-SameOutcome g t p.context b1 v1 w)) in
    let whole : parse_bytes (f + g) t c (content b ++ ys) ≡ done q' =
      parse_bytes_chunks f g t c (content b) ys p' q' i dp
        (record {
          accepted = sym sp.same_ok ∙ o;
          unfinished = subst (λ z. IsReading z.state) sp.same_context w;
        })
        (rw (← sp.same_context, ← sp.same_bytes, ← e1) dq) in
    let (r, dr, sr) = buffer_done (parse_request (f + g) t c b2) q' (
      subst (SameOutcome (parse_request (f + g) t c b2)) (ap (parse_bytes (f + g) t c) e2 ∙ whole)
        (parse_request-SameOutcome (f + g) t c b2 v2 i)) in
    (
      r,
      dr,
      sr.same_ok ∙ sym sq.same_ok,
      sr.same_context ∙ sym sq.same_context,
      sr.same_bytes ∙ sym sq.same_bytes,
    )
