-- ===== src/Http/Context/Print.antt =====
-- The text of a well-formed request, as a client sends it.
use talib.Prelude.{
  bytes, str_eq, split_at, split_at_first, split_at_absent, assign, ℕ, ◌≡◌, refl, ◌≢◌, true, false,
  Option, none, some, List, [], ◌∷◌, ◌++◌, append-nil, arith, length, All,
}
use talib.Http.Request.{
  HttpRequest, Method, invalid, get, post, head, put, delete, Version, unknown, http10, http11,
  method_of, method_string, set_method, skip_spaces, add_header,
}
use talib.Http.Request.Trim.{first_is_space, last_is_space, trim_right_id}
use talib.Http.Context.{
  HttpContext, got_all, set_target, set_version, process_target, process_request_line, header_line,
}

pub record Header : Type 0 where
  pub field : List ℕ
  pub value : List ℕ

-- The parts of a request; the query is there with its question mark, or empty.
pub record Parts : Type 0 where
  pub method : Method
  pub path : List ℕ
  pub query : Option (List ℕ)
  pub version : Version
  pub headers : List Header

abbrev pub query_text : Option (List ℕ) → List ℕ
query_text none = []
query_text (some q) = b'?' ∷ q

abbrev pub version_text : Version → List ℕ
version_text http11 = bytes "HTTP/1.1"
version_text http10 = bytes "HTTP/1.0"
version_text unknown = bytes "HTTP/?"

abbrev pub request_line : Parts → List ℕ
request_line r =
    method_string r.method
    ++ b' ' ∷ ((r.path ++ query_text r.query) ++ b' ' ∷ version_text r.version)

abbrev pub header_text : Header → List ℕ
header_text h = h.field ++ b':' ∷ b' ' ∷ h.value

abbrev pub headers_text : List Header → List ℕ → List ℕ
headers_text [] rest = 13 ∷ 10 ∷ rest
headers_text (h ∷ hs) rest = header_text h ++ 13 ∷ 10 ∷ headers_text hs rest

abbrev pub request_text : Parts → List ℕ → List ℕ
request_text r rest = request_line r ++ 13 ∷ 10 ∷ headers_text r.headers rest

-- A byte that may stand in a target.
abbrev pub IsPlain : ℕ → Type 0
IsPlain c = (c ≢ b' ') × (c ≢ b'?')

abbrev pub IsName : ℕ → Type 0
IsName c = c ≢ b':'

pub record IsHeader (h : Header) : Type 0 where
  pub field_plain : All IsName h.field
  pub first_plain : first_is_space h.value ≡ false
  pub last_plain : last_is_space h.value ≡ false
  pub one_line : All (λ c. c ≢ 13) (header_text h)

abbrev pub IsQuery : Option (List ℕ) → Type 0
IsQuery none = Unit
IsQuery (some q) = All (λ c. c ≢ b' ') q

pub record IsRequest (r : Parts) : Type 0 where
  pub method_known : r.method ≢ invalid
  pub version_known : r.version ≢ unknown
  pub path_plain : All IsPlain r.path
  pub query_plain : IsQuery r.query
  pub one_line : All (λ c. c ≢ 13) (request_line r)
  pub headers_plain : All IsHeader r.headers

-- The request that the text stands for.
abbrev pub with_header : Header → HttpRequest → HttpRequest
with_header h r = record r { headers = assign h.field h.value r.headers }

abbrev pub with_headers : List Header → HttpRequest → HttpRequest
with_headers [] r = r
with_headers (h ∷ hs) r = with_headers hs (with_header h r)

abbrev pub with_line : Parts → HttpRequest → HttpRequest
with_line p r = record r {
  method = p.method;
  version = p.version;
  path = p.path;
  query = elim p.query [ none ↦ r.query | some q ↦ b'?' ∷ q ];
}

skip_plain : (v : List ℕ) → first_is_space v ≡ false → skip_spaces v ≡ v
unfolding skip_spaces
skip_plain [] h = refl
skip_plain (c ∷ v) h = ground arith

-- The names of the methods are read back.
pub method_of-method_string : (m : Method) → method_of (method_string m) ≡ m
unfolding method_of method_string str_eq
method_of-method_string invalid = refl
method_of-method_string get = refl
method_of-method_string post = refl
method_of-method_string head = refl
method_of-method_string put = refl
method_of-method_string delete = refl

pub method_no_space : (m : Method) → All (λ c. c ≢ b' ') (method_string m)
unfolding method_string
method_no_space invalid = omega arith
method_no_space get = omega arith
method_no_space post = omega arith
method_no_space head = omega arith
method_no_space put = omega arith
method_no_space delete = omega arith

no_space :
    (xs : List ℕ) (q : Option (List ℕ))
    → All IsPlain xs
    → IsQuery q
    → All (λ c. c ≢ b' ') (xs ++ query_text q)
no_space [] none p h = tt
no_space [] (some q) p h = (omega arith, h)
no_space (x ∷ xs) q p h = (p.0.0, no_space xs q p.1 h)

no_question : (xs : List ℕ) → All IsPlain xs → All (λ c. c ≢ b'?') xs
no_question [] h = tt
no_question (x ∷ xs) h = (h.0.1, no_question xs h.1)

set_target-text :
    (p : List ℕ) (q : Option (List ℕ)) (r : HttpRequest)
    → All IsPlain p
    → set_target (p ++ query_text q) r
      ≡ record r { path = p; query = elim q [ none ↦ r.query | some z ↦ b'?' ∷ z ] }
unfolding set_target
set_target-text p none r h =
    rw append-nil (rw (split_at_absent b'?' p (no_question p h), set_target))
set_target-text p (some z) r h = rw (split_at_first b'?' p z (no_question p h), set_target)

set_version-text :
    (v : Version) (r : HttpRequest)
    → v ≢ unknown
    → set_version (version_text v) r ≡ (true, record r { version = v })
unfolding set_version str_eq
set_version-text http11 r h = refl
set_version-text http10 r h = refl
set_version-text unknown r h = absurd (h refl)

pub set_method-text :
    (m : Method) (r : HttpRequest)
    → m ≢ invalid
    → r.method ≡ invalid
    → set_method (method_string m) r ≡ some (true, record r { method = m })
unfolding set_method
set_method-text m r h e = rw (e, method_of-method_string m) (ground arith)

process_target-text :
    (p : Parts) (r : HttpRequest)
    → IsRequest p
    → process_target ((p.path ++ query_text p.query) ++ b' ' ∷ version_text p.version) r
      ≡ (true, record (set_target (p.path ++ query_text p.query) r) { version = p.version })
unfolding process_target
process_target-text p r h =
    rw
      (
        split_at_first b' ' (p.path ++ query_text p.query) (version_text p.version)
            (no_space p.path p.query h.path_plain h.query_plain),
        process_target,
      )
      (set_version-text p.version _ h.version_known)

-- The request line of a well-formed request is accepted, and its parts are stored.
pub process_request_line-text :
    (p : Parts) (r : HttpRequest)
    → IsRequest p
    → r.method ≡ invalid
    → process_request_line (request_line p) r ≡ some (true, with_line p r)
unfolding process_request_line
process_request_line-text p r h m =
    rw
      (
        split_at_first b' ' (method_string p.method) _ (method_no_space p.method),
        process_request_line,
      )
      (rw (set_method-text p.method r h.method_known m)
        (rw (process_target-text p _ h) (rw (set_target-text p.path p.query _ h.path_plain))))

-- A header line of a well-formed request adds its field with its value.
pub header_line-text :
    (h : Header) (c : HttpContext)
    → IsHeader h
    → header_line (header_text h) c ≡ (true, record c { request = with_header h c.request })
unfolding header_line add_header skip_spaces
header_line-text h c i =
    rw (split_at_first b':' h.field (b' ' ∷ h.value) i.field_plain, header_line)
      (rw (skip_plain h.value i.first_plain)
        (rw (trim_right_id (length h.value) h.value refl i.last_plain)))

-- The empty line ends the headers.
pub header_line_empty : (c : HttpContext) → header_line [] c ≡ (false, record c { state = got_all })
unfolding header_line split_at
header_line_empty c = refl
