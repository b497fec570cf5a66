-- ===== src/Http/Server/Answer.antt =====
-- From the bytes of a request to the bytes of its response.
use talib.Prelude.{
  ℕ, ◌+◌, ◌^◌, ◌<◌, ◌≡◌, refl, ap, ◌∙◌, Bool, true, false, some, List, ◌++◌, arith, if◌then◌else◌,
  length,
}
use talib.Buffer.{Buffer, IsValid, content, new_buffer, initial_size}
use talib.Buffer.Queue.{new_buffer-IsValid, length-new_buffer}
use talib.Http.Request.{HttpRequest, empty_request}
use talib.Http.Context.{new_context, reset, done}
use talib.Http.Context.Print.{Parts, IsRequest, request_text}
use talib.Http.Context.RoundTrip.{parsed, parse_request-request_text}
use talib.Http.Response.{HttpResponse, new_response, append_to_buffer}
use talib.Http.Response.Text.{response_text, append_to_buffer_lem}
use talib.Http.Server.{Session, wants_close, on_request, answer, on_message}
use talib.Tcp.Connection.{Connection, Written, is_fault, is_connected, shutdown}
use talib.Tcp.Connection.Stream.{stream}
use talib.Tcp.Connection.Sends.{send_buffer-Adds, stream-shutdown}

-- The response that a callback gives to a request.
abbrev pub response_to : (HttpRequest → HttpResponse → HttpResponse) → HttpRequest → HttpResponse
response_to callback req = callback req (new_response (wants_close req))

-- A connection that a text can be sent on.
pub record Sendable (text : List ℕ) (w : Written) (c : Connection) : Type 0 where
  pub up : is_connected c.state ≡ true
  pub no_fault : is_fault w ≡ false
  pub output_valid : IsValid c.output
  pub output_small : length c.output.buffer < 2 ^ 62
  pub text_small : 4104 + length text < 2 ^ 31

-- What the loop leaves behind an answer.
pub record Answered (text : List ℕ) (c c' : Connection) : Type 0 where
  pub text_behind : stream c' ≡ stream c ++ text
  pub same_input : c'.input ≡ c.input

fresh_response :
    (r : HttpResponse)
    → 4104 + length (response_text r) < 2 ^ 31
    → (b : Buffer) × (append_to_buffer r (new_buffer initial_size) ≡ some b)
      × (content b ≡ response_text r)
fresh_response r h =
    let (v, e) = new_buffer-IsValid initial_size in
    let (b, d, a) = append_to_buffer_lem r (new_buffer initial_size) v room in
    (b, d, a.bytes_behind ∙ ap (λ z. z ++ response_text r) e)
  where
    room : length (new_buffer initial_size).buffer + length (response_text r) < 2 ^ 31
    room = omega (arith, h, length-new_buffer initial_size)

shutdown-Answered :
    (close : Bool) (text : List ℕ) (c c1 : Connection)
    → stream c1 ≡ stream c ++ text
    → c1.input ≡ c.input
    → Answered text c (if close then shutdown true c1 else c1)
shutdown-Answered true text c c1 h i = record {
  text_behind = (stream-shutdown c1).0 ∙ h;
  same_input = (stream-shutdown c1).1 ∙ i;
}
shutdown-Answered false text c c1 h i = record { text_behind = h; same_input = i }

-- The response goes behind the outgoing bytes of the connection, whether it is closed or not.
on_request_lem :
    (callback : HttpRequest → HttpResponse → HttpResponse) (w : Written) (req : HttpRequest)
    (c : Connection)
    → Sendable (response_text (response_to callback req)) w c
    → (c' : Connection) × (on_request callback w req c ≡ some c')
      × Answered (response_text (response_to callback req)) c c'
unfolding on_request
on_request_lem callback w req c h =
    let (b, e, t) = fresh_response (response_to callback req) h.text_small in
    let (c1, d, a) = send_buffer-Adds w b c h.up h.no_fault (record {
      valid = h.output_valid;
      narrow = omega (arith, ap length t, h.text_small);
      small = h.output_small;
    }) in
    (
      (if (response_to callback req).close_connection then shutdown true c1 else c1),
      rw (e, on_request) (rw d refl),
      shutdown-Answered (response_to callback req).close_connection
          (response_text (response_to callback req)) c c1 (a.in_order ∙ ap (λ z. stream c ++ z) t)
          a.same_input,
    )

-- A connection whose context expects a request line, and whose input buffer holds the text of a
-- well-formed request and whatever follows it: the handler reads the request, puts the text of the
-- callback's response behind the outgoing bytes, resets the context, and leaves the bytes behind the
-- request in the input buffer. The fuel is for more rounds than the request has lines. The connection
-- is up, its output buffer is valid, the write meets no broken pipe or reset, and the text of the
-- response is below 2^31 bytes.
pub on_message-request_text :
    (fuel t : ℕ) (callback : HttpRequest → HttpResponse → HttpResponse) (w1 w2 : Written)
    (p : Parts) (rest : List ℕ) (s : Session)
    → s.context ≡ new_context
    → IsValid s.connection.input
    → content s.connection.input ≡ request_text p rest
    → IsRequest p
    → length p.headers + 1 < fuel
    → Sendable (response_text (response_to callback (parsed t p empty_request))) w2 s.connection
    → (s' : Session) × (on_message fuel t callback w1 w2 s ≡ done s')
      × (s'.context ≡ new_context)
      × (content s'.connection.input ≡ rest)
      × (stream s'.connection
          ≡ stream s.connection ++ response_text (response_to callback (parsed t p empty_request)))
unfolding on_message answer reset
on_message-request_text fuel t callback w1 w2 p rest s n v e h f d =
    let (q, g, o, k, r) =
      parse_request-request_text fuel t empty_request s.connection.input p rest v e h refl f in
    let c : Connection = record s.connection { input = q.rest } in
    let (c', l, a) = on_request_lem callback w2 (parsed t p empty_request) c (record {
      up = d.up;
      no_fault = d.no_fault;
      output_valid = d.output_valid;
      output_small = d.output_small;
      text_small = d.text_small;
    }) in
    (
      record { connection = c'; context = new_context },
      rw (n, g, on_message) (rw (o, k) (rw l refl)),
      refl,
      ap content a.same_input ∙ r,
      a.text_behind,
    )
