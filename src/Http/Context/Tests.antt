-- ===== src/Http/Context/Tests.antt =====
-- A request of two lines, for src/Http/HttpContext.cpp.
use talib.Prelude.{
  bytes, split_at, ℕ, ◌+◌, ◌-◌, ◌^◌, ◌<◌, ◌≡◌, refl, ◌≢◌, true, false, some, List, [], ◌∷◌, ◌++◌,
  arith, length, replicate, All, length-append, length-replicate, take_all,
}
use talib.Buffer.{Buffer, IsValid, content, append, find_crlf_in}
use talib.Http.Request.{get, is_space, method_string, http11, empty_request, method_string}
use talib.Http.Context.{
  HttpContext, new_context, got_all, parse_request, Parse, done, aborts, runs_on, process_target,
  parse_round, request_line_round,
}
use talib.Http.Context.Bytes.{parse_bytes}
use talib.Http.Context.Refines.{SameOutcome, parse_request-SameOutcome, parse_request_ends}
use talib.Http.Context.Print.{Header, Parts, IsRequest, request_text}
use talib.Http.Context.RoundTrip.{parsed, parse_request-request_text, parse_request_chunks}
use talib.Http.Context.Faults.{refused_line_aborts, line_with}

abbrev host : Header
host = record { field = bytes "Host"; value = bytes "x" }

abbrev parts : Parts
parts = record {
  method = get;
  path = bytes "/a";
  query = some (bytes "b");
  version = http11;
  headers = host ∷ [];
}

parts-IsRequest : IsRequest parts
unfolding method_string is_space
parts-IsRequest = record {
  method_known = λ e. cc;
  version_known = λ e. cc;
  path_plain = ground arith;
  query_plain = ground arith;
  one_line = ground arith;
  headers_plain = (
    record {
      field_plain = ground arith;
      first_plain = refl;
      last_plain = refl;
      one_line = ground arith;
    },
    tt,
  );
}

abbrev holding : List ℕ → Buffer
holding text = record {
  buffer = replicate 8 0 ++ text;
  reader_index = 8;
  writer_index = 8 + length text;
}

holding-IsValid : (text : List ℕ) → IsValid (holding text)
holding-IsValid text = record {
  prepend = omega arith;
  ordered = omega arith;
  within = omega (arith, length-append (replicate 8 0) text, length-replicate {A = ℕ} 8 0);
}

content-holding : (text : List ℕ) → content (holding text) ≡ text
content-holding text =
    let e : 8 + length text - 8 ≡ length text = omega arith in
    rw e (take_all (length text) text (omega arith))

abbrev text : List ℕ
text = request_text parts (bytes "GET")

parse_request-request_text_example :
    (q : Parse Buffer) × (parse_request 3 7 new_context (holding text) ≡ done q)
    × (q.ok ≡ true)
    × (q.context ≡ record { state = got_all; request = parsed 7 parts empty_request })
    × (content q.rest ≡ bytes "GET")
parse_request-request_text_example =
    parse_request-request_text 3 7 empty_request (holding text) parts (bytes "GET")
      (holding-IsValid text) (content-holding text) parts-IsRequest refl (omega arith)

parse_request-SameOutcome_example :
    SameOutcome
      (parse_request 3 7 new_context (holding text))
      (parse_bytes 3 7 new_context (content (holding text)))
parse_request-SameOutcome_example =
    parse_request-SameOutcome 3 7 new_context (holding text) (holding-IsValid text) tt

parse_request_ends_example : parse_request 60 7 new_context (holding text) ≢ runs_on
unfolding method_string
parse_request_ends_example =
    parse_request_ends 60 7 new_context (holding text) (holding-IsValid text) tt (omega arith)

abbrev complete : HttpContext
complete = record { state = got_all; request = empty_request }

abbrev bad_header : List ℕ
bad_header = bytes "Host x" ++ 13 ∷ 10 ∷ bytes "rest"

abbrev bad_line : List ℕ
bad_line = line_with get (bytes "/a") ++ 13 ∷ 10 ∷ []

bad_line_short : length (holding bad_line).buffer < 2 ^ 62
unfolding method_string
bad_line_short = omega arith

bad_line_plain : All (λ d. d ≢ 13) (line_with get (bytes "/a"))
unfolding method_string
bad_line_plain = ground arith

bad_line_refused : (process_target (bytes "/a") (record empty_request { method = get })).0 ≡ false
unfolding process_target split_at
bad_line_refused = refl

refused_line_aborts_example :
    (p : Parse Buffer) × (b1 : Buffer) × (parse_request 1 7 new_context (holding bad_line) ≡ done p)
    × (p.ok ≡ false)
    × (append (bytes "GET") p.rest ≡ some b1)
    × (parse_request 1 7 p.context b1 ≡ aborts)
refused_line_aborts_example =
    refused_line_aborts 0 0 7 get (bytes "/a") [] (bytes "GET") empty_request (holding bad_line)
      (record { valid = holding-IsValid bad_line; narrow = omega arith; small = bad_line_short })
      (λ e. cc) refl bad_line_plain bad_line_refused (content-holding bad_line)

abbrev first_piece : List ℕ
first_piece = bytes "GET /a"

abbrev second_piece : List ℕ
second_piece = bytes "?b HT"

abbrev waiting : List ℕ → Parse Buffer
waiting piece = record { ok = true; has_more = false; context = new_context; rest = holding piece }

waits_first : parse_request 1 7 new_context (holding first_piece) ≡ done (waiting first_piece)
unfolding parse_request parse_round request_line_round find_crlf_in
waits_first = refl

waits_whole :
    parse_request 1 7 new_context (holding (first_piece ++ second_piece))
    ≡ done (waiting (first_piece ++ second_piece))
unfolding parse_request parse_round request_line_round find_crlf_in
waits_whole = refl

parse_request_chunks_example :
    (q : Parse Buffer) × (parse_request 2 7 new_context (holding (first_piece ++ second_piece))
      ≡ done q)
    × (q.ok ≡ true)
    × (q.context ≡ new_context)
    × (content q.rest ≡ content (holding (first_piece ++ second_piece)))
parse_request_chunks_example =
    parse_request_chunks 1 1 7 new_context (holding first_piece)
      (holding (first_piece ++ second_piece)) (holding (first_piece ++ second_piece)) second_piece
      (waiting first_piece) (waiting (first_piece ++ second_piece)) (holding-IsValid first_piece)
      (holding-IsValid (first_piece ++ second_piece))
      (holding-IsValid (first_piece ++ second_piece)) tt waits_first refl tt refl refl waits_whole
