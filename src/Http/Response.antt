-- ===== src/Http/Response.antt =====
-- src/Http/HttpResponse.h and HttpResponse.cpp. A status code is its number; the headers are in the
-- order of std::map.
pub mod Text
mod Tests
use talib.Prelude.{
  decimal, bytes, assign, ℕ, ◌+◌, ◌-◌, ◌/◌, Bool, Option, some, List, [], ◌∷◌, ◌++◌, if◌then◌else◌,
  ◌>>=◌, ◌>>◌, length, take,
}
use talib.Buffer.{Buffer, append}

pub record HttpResponse : Type 0 where
  pub headers : List (List ℕ × List ℕ)
  pub status_code : ℕ
  pub status_message : List ℕ
  pub close_connection : Bool
  pub body : List ℕ

unfoldable pub new_response : Bool → HttpResponse
new_response close = record {
  headers = [];
  status_code = 0;
  status_message = [];
  close_connection = close;
  body = [];
}

unfoldable pub set_status_code : ℕ → HttpResponse → HttpResponse
set_status_code code r = record r { status_code = code }

unfoldable pub set_status_message : List ℕ → HttpResponse → HttpResponse
set_status_message message r = record r { status_message = message }

unfoldable pub set_close_connection : Bool → HttpResponse → HttpResponse
set_close_connection on r = record r { close_connection = on }

unfoldable pub add_header : List ℕ → List ℕ → HttpResponse → HttpResponse
add_header key value r = record r { headers = assign key value r.headers }

unfoldable pub set_content_type : List ℕ → HttpResponse → HttpResponse
unfolding add_header
set_content_type content_type r = add_header (bytes "Content-Type") content_type r

unfoldable pub set_body : List ℕ → HttpResponse → HttpResponse
set_body body r = record r { body = body }

abbrev pub crlf : List ℕ
crlf = 13 ∷ 10 ∷ []

-- `snprintf` into `buf[32]`, and the text that is read from it up to its zero byte.
abbrev pub in_buf : List ℕ → List ℕ
in_buf text = take 31 text

abbrev pub status_text : HttpResponse → List ℕ
status_text r = in_buf (bytes "HTTP/1.1 " ++ (decimal r.status_code ++ bytes " "))

abbrev pub length_text : HttpResponse → List ℕ
length_text r = in_buf (bytes "Content-Length: " ++ (decimal (length r.body) ++ crlf))

-- The loop over the headers.
append_headers : List (List ℕ × List ℕ) → Buffer → Option Buffer
append_headers [] output = some output
append_headers ((key, value) ∷ headers) output = do
  b1 ← append key output
  b2 ← append (bytes ": ") b1
  b3 ← append value b2
  b4 ← append crlf b3
  append_headers headers b4

-- The line about the connection, with the length of the body where it stays open.
append_connection : HttpResponse → Buffer → Option Buffer
append_connection r output =
    if r.close_connection
    then append (bytes "Connection: close" ++ crlf) output
    else (do b1 ← append (length_text r) output; append (bytes "Connection: Keep-Alive" ++ crlf) b1)

pub append_to_buffer : HttpResponse → Buffer → Option Buffer
unfolding append_connection append_headers
append_to_buffer r output = do
  b1 ← append (status_text r) output
  b2 ← append r.status_message b1
  b3 ← append crlf b2
  b4 ← append_connection r b3
  b5 ← append_headers r.headers b4
  b6 ← append crlf b5
  append r.body b6
