-- ===== src/Http/Request.antt =====
-- src/Http/HttpRequest.h. Texts are lists of bytes; `none` is a failed assertion.
pub mod Trim
use talib.Prelude.{
  bytes, str_eq, lookup, assign, ℕ, zero, suc, Bool, true, false, not, ◌&&◌, ◌||◌, Option, none,
  some, List, [], ◌∷◌, leb, ◌==◌, if◌then◌else◌, ◌>>=◌, ◌>>◌, assert, length, get_elem?, take,
}

pub data Method : Type 0 where
  invalid get post head put delete : Method

pub data Version : Type 0 where
  unknown http10 http11 : Version

pub record HttpRequest : Type 0 where
  pub method : Method
  pub version : Version
  pub path : List ℕ
  pub query : List ℕ
  pub receive_time : ℕ
  pub headers : List (List ℕ × List ℕ)

abbrev pub empty_request : HttpRequest
empty_request = record {
  method = invalid;
  version = unknown;
  path = [];
  query = [];
  receive_time = 0;
  headers = [];
}

-- The chain of tests in `setMethod`.
unfoldable pub method_of : List ℕ → Method
method_of m =
    if str_eq m (bytes "GET")
    then get
    else if str_eq m (bytes "POST")
    then post
    else if str_eq m (bytes "HEAD")
    then head
    else if str_eq m (bytes "PUT")
    then put
    else if str_eq m (bytes "DELETE")
    then delete
    else invalid

abbrev pub is_invalid : Method → Bool
is_invalid invalid = true
is_invalid _ = false

unfoldable pub set_method : List ℕ → HttpRequest → Option (Bool × HttpRequest)
set_method m r = do
  assert (is_invalid r.method)
  some (not (is_invalid (method_of m)), record r { method = method_of m })

unfoldable pub method_string : Method → List ℕ
method_string get = bytes "GET"
method_string post = bytes "POST"
method_string head = bytes "HEAD"
method_string put = bytes "PUT"
method_string delete = bytes "DELETE"
method_string invalid = bytes "UNKNOWN"

-- `isspace` of the C locale.
unfoldable pub is_space : ℕ → Bool
is_space c = c == 32 || leb 9 c && leb c 13

-- The loop that skips spaces behind the colon.
unfoldable pub skip_spaces : List ℕ → List ℕ
unfolding is_space
skip_spaces [] = []
skip_spaces (c ∷ s) = if is_space c then skip_spaces s else c ∷ s

-- The loop that shortens the value while it ends in a space; the count is its size.
unfoldable pub trim_right : ℕ → List ℕ → List ℕ
unfolding is_space
trim_right zero value = value
trim_right (suc n) value = elim (get_elem? value n) [
  | none ↦ value
  | some c ↦ let shorter = trim_right n (take n value) in if is_space c then shorter else value
]

unfoldable pub add_header : List ℕ → List ℕ → HttpRequest → HttpRequest
unfolding skip_spaces trim_right
add_header field behind_colon r =
    let value = skip_spaces behind_colon in
    record r { headers = assign field (trim_right (length value) value) r.headers }

-- A missing header reads as the empty text.
unfoldable pub get_header : List ℕ → HttpRequest → List ℕ
get_header field r = elim (lookup field r.headers) [ none ↦ [] | some value ↦ value ]
