-- ===== src/Http/Response/Text.antt =====
-- The text of a response: what `appendToBuffer` puts behind the readable bytes.
use talib.Prelude.{
  bytes, ℕ, ◌+◌, ◌^◌, ◌<◌, ◌≡◌, refl, sym, ap, ◌∙◌, inl, inr, Option, some, List, [], ◌∷◌, ◌++◌,
  append-nil, append_assoc, arith, if◌then◌else◌, Bool-cases, ◌>>=◌, length, length-append,
}
use talib.Buffer.{Buffer, IsValid, content, append}
use talib.Buffer.Content.{Appends}
use talib.Buffer.Input.{append_lem}
use talib.Http.Response.{
  HttpResponse, crlf, status_text, length_text, append_headers, append_connection, append_to_buffer,
}

-- A step that puts a text behind the bytes of any valid buffer that has the room.
pub Writes : List ℕ → (Buffer → Option Buffer) → Type 0
Writes text k =
    (b : Buffer)
    → IsValid b
    → length b.buffer + length text < 2 ^ 31
    → (b' : Buffer) × (k b ≡ some b') × Appends text b b'

append-Writes : (text : List ℕ) → Writes text (append text)
unfolding Writes
append-Writes text b v h =
    append_lem text b (record { valid = v; narrow = omega arith; small = omega arith })

-- Two steps, one behind the other.
then-Writes :
    (s t : List ℕ) (k l : Buffer → Option Buffer)
    → Writes s k
    → Writes t l
    → Writes (s ++ t) (λ b. do b' ← k b; l b')
unfolding Writes
then-Writes s t k l f g b v h =
    let (b1, e1, a1) = f b v (omega (arith, length-append s t)) in
    let (b2, e2, a2) = g b1 a1.valid (omega (arith, length-append s t, a1.grows)) in
    (
      b2,
      rw e1 e2,
      record {
        valid = a2.valid;
        bytes_behind =
            a2.bytes_behind ∙ ap (λ z. z ++ t) a1.bytes_behind ∙ append_assoc (content b) s t;
        grows = omega (arith, length-append s t, a1.grows, a2.grows);
      },
    )

nothing-Writes : Writes [] some
unfolding Writes
nothing-Writes b v h = (
  b,
  refl,
  record { valid = v; bytes_behind = sym (append-nil (content b)); grows = omega arith },
)

abbrev pub header_lines : List (List ℕ × List ℕ) → List ℕ
header_lines [] = []
header_lines ((key, value) ∷ headers) =
    key ++ (bytes ": " ++ (value ++ (crlf ++ header_lines headers)))

abbrev pub connection_lines : HttpResponse → List ℕ
connection_lines r =
    if r.close_connection
    then bytes "Connection: close" ++ crlf
    else length_text r ++ (bytes "Connection: Keep-Alive" ++ crlf)

-- Status line, connection lines, headers, an empty line, the body.
abbrev pub response_text : HttpResponse → List ℕ
response_text r =
    status_text r
    ++ (r.status_message
        ++ (crlf ++ (connection_lines r ++ (header_lines r.headers ++ (crlf ++ r.body)))))

headers-Writes :
    (headers : List (List ℕ × List ℕ)) → Writes (header_lines headers) (append_headers headers)
unfolding append_headers
headers-Writes [] = nothing-Writes
headers-Writes ((key, value) ∷ headers) = then-Writes key _ (append key) _ (append-Writes key) (
    then-Writes (bytes ": ") _ (append (bytes ": ")) _ (append-Writes (bytes ": ")) (
      then-Writes value _ (append value) _ (append-Writes value) (
        then-Writes crlf (header_lines headers) (append crlf) (append_headers headers)
          (append-Writes crlf) (headers-Writes headers))))

connection-Writes : (r : HttpResponse) → Writes (connection_lines r) (append_connection r)
unfolding append_connection Writes
connection-Writes r = elim (Bool-cases r.close_connection) [
  | inl close ↦ λ b. rw close (append-Writes (bytes "Connection: close" ++ crlf) b)
  | inr keep ↦ λ b. rw keep (
      then-Writes (length_text r) (bytes "Connection: Keep-Alive" ++ crlf) (append (length_text r))
        (append (bytes "Connection: Keep-Alive" ++ crlf)) (append-Writes (length_text r))
        (append-Writes (bytes "Connection: Keep-Alive" ++ crlf)) b)
]

response-Writes : (r : HttpResponse) → Writes (response_text r) (append_to_buffer r)
unfolding append_to_buffer
response-Writes r =
    then-Writes (status_text r) _ (append (status_text r)) _ (append-Writes (status_text r)) (
      then-Writes r.status_message _ (append r.status_message) _ (append-Writes r.status_message) (
        then-Writes crlf _ (append crlf) _ (append-Writes crlf) (
          then-Writes (connection_lines r) _ (append_connection r) _ (connection-Writes r) (
            then-Writes (header_lines r.headers) _ (append_headers r.headers) _
              (headers-Writes r.headers)
              (then-Writes crlf r.body (append crlf) (append r.body) (append-Writes crlf)
                (append-Writes r.body))))))

-- `appendToBuffer` on a valid buffer succeeds, and puts the text of the response behind the readable
-- bytes: the status line, the connection lines, the headers in the order of the map, an empty
-- line and the body. The vector and the text are below 2^31 together.
pub append_to_buffer_lem :
    (r : HttpResponse) (b : Buffer)
    → IsValid b
    → length b.buffer + length (response_text r) < 2 ^ 31
    → (b' : Buffer) × (append_to_buffer r b ≡ some b') × Appends (response_text r) b b'
unfolding Writes
append_to_buffer_lem r b v h = response-Writes r b v h
