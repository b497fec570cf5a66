-- ===== src/Http/Context.antt =====
-- src/Http/HttpContext.h and src/Http/HttpContext.cpp: the request parser of a connection.
-- The parser reads a `Buffer`; a pointer into it is an offset from `peek`.
pub mod Bytes
pub mod Refines
pub mod Chunks
pub mod Print
pub mod RoundTrip
pub mod Faults
mod Tests
use talib.Prelude.{
  bytes, str_eq, split_at, ℕ, zero, suc, ◌+◌, ◌/◌, Bool, true, false, ◌&&◌, Option, none, some,
  List, ◌∷◌, ◌==◌, if◌then◌else◌, ◌>>=◌, ◌>>◌, length, get_elem?, take,
}
use talib.Buffer.{Buffer, content, find_crlf, retrieve_until}
use talib.Http.Request.{HttpRequest, http10, http11, empty_request, set_method, add_header}

pub data ParseState : Type 0 where
  expect_request_line expect_headers expect_body got_all : ParseState

pub record HttpContext : Type 0 where
  pub state : ParseState
  pub request : HttpRequest

abbrev pub new_context : HttpContext
new_context = record { state = expect_request_line; request = empty_request }

abbrev pub is_got_all : ParseState → Bool
is_got_all got_all = true
is_got_all _ = false

abbrev pub has_got_all : HttpContext → Bool
has_got_all c = is_got_all c.state

-- `reset` swaps the request with an empty one.
unfoldable pub reset : HttpContext → HttpContext
reset c = record { state = expect_request_line; request = empty_request }

-- The part from the target to the next space; the query keeps its question mark.
set_target : List ℕ → HttpRequest → HttpRequest
set_target target r = elim (split_at b'?' target) [
  | none ↦ record r { path = target }
  | some (path, query) ↦ record r { path = path; query = b'?' ∷ query }
]

-- The eight bytes behind the second space.
set_version : List ℕ → HttpRequest → Bool × HttpRequest
set_version v r =
    if length v == 8 && str_eq (take 7 v) (bytes "HTTP/1.")
    then elim (get_elem? v 7) [
      | none ↦ (false, r)
      | some c ↦
          if c == b'1'
          then (true, record r { version = http11 })
          else if c == b'0'
          then (true, record r { version = http10 })
          else (false, r)
    ]
    else (false, r)

-- Behind the method: the target, a space and the version.
pub process_target : List ℕ → HttpRequest → Bool × HttpRequest
unfolding set_target set_version
process_target rest r = elim (split_at b' ' rest) [
  | none ↦ (false, r)
  | some (target, version) ↦ set_version version (set_target target r)
]

pub process_request_line : List ℕ → HttpRequest → Option (Bool × HttpRequest)
unfolding process_target
process_request_line line r = elim (split_at b' ' line) [
  | none ↦ some (false, r)
  | some (method, rest) ↦ do
    (found, r') ← set_method method r
    some (if found then process_target rest r' else (false, r'))
]

-- The variables of the loop of `parseRequest`, over the buffer or over its bytes.
pub record Parse (B : Type 0) : Type 0 where
  pub ok : Bool
  pub has_more : Bool
  pub context : HttpContext
  pub rest : B

abbrev pub halt : {B : Type 0} → Bool → HttpContext → B → Option (Parse B)
halt ok c b = some (record { ok = ok; has_more = false; context = c; rest = b })

-- One round in the state kExpectRequestLine.
request_line_round : ℕ → HttpContext → Buffer → Option (Parse Buffer)
request_line_round receive_time c b = elim (find_crlf b) [
  | none ↦ halt true c b
  | some crlf ↦ do
    (ok, r) ← process_request_line (take crlf (content b)) c.request
    if ok
        then (do
          b' ← retrieve_until (crlf + 2) b
          some (record {
            ok = true;
            has_more = true;
            context = record {
              state = expect_headers;
              request = record r { receive_time = receive_time };
            };
            rest = b';
          }))
        else halt false (record c { request = r }) b
]

-- What a header line, or the line that ends the headers, does to the context.
pub header_line : List ℕ → HttpContext → Bool × HttpContext
header_line line c = elim (split_at b':' line) [
  | some (field, value) ↦ (true, record c { request = add_header field value c.request })
  | none ↦ (false, record c { state = got_all })
]

-- One round in the state kExpectHeaders.
header_round : HttpContext → Buffer → Option (Parse Buffer)
unfolding header_line
header_round c b = elim (find_crlf b) [
  | none ↦ halt true c b
  | some crlf ↦ do
    let next = header_line (take crlf (content b)) c
    b' ← retrieve_until (crlf + 2) b
    some (record { ok = true; has_more = next.0; context = next.1; rest = b' })
]

-- One round of the loop. In the states kExpectBody and kGotAll it changes nothing.
parse_round : ℕ → ParseState → HttpContext → Buffer → Option (Parse Buffer)
unfolding request_line_round header_round
parse_round t expect_request_line c b = request_line_round t c b
parse_round t expect_headers c b = header_round c b
parse_round t expect_body c b = some (record { ok = true; has_more = true; context = c; rest = b })
parse_round t got_all c b = some (record { ok = true; has_more = true; context = c; rest = b })

-- What a loop on fuel gives: a result, a failed assertion, or more rounds than the fuel.
pub data Outcome (A : Type 0) : Type 0 where
  done : A → Outcome A
  aborts : Outcome A
  runs_on : Outcome A

-- `parseRequest` with fuel for its rounds.
pub parse_request : ℕ → ℕ → HttpContext → Buffer → Outcome (Parse Buffer)
unfolding parse_round
parse_request zero t c b = runs_on
parse_request (suc fuel) t c b = elim (parse_round t c.state c b) [
  | none ↦ aborts
  | some p ↦ elim p.has_more [ true ↦ parse_request fuel t p.context p.rest | false ↦ done p ]
]
