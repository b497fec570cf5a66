-- ===== src/Http/Server.antt =====
-- src/Http/HttpServer.h and HttpServer.cpp: what the server does with the bytes of a connection. The
-- callback that fills in the response is an argument.
pub mod Answer
mod Tests
use talib.Prelude.{
  bytes, str_eq, ℕ, ◌+◌, ◌-◌, ◌/◌, Bool, true, false, not, ◌&&◌, ◌||◌, Option, none, some, List, [],
  ◌∷◌, ◌++◌, if◌then◌else◌, ◌>>=◌, ◌>>◌,
}
use talib.Buffer.{new_buffer, initial_size}
use talib.Http.Request.{HttpRequest, Version, http10, get_header}
use talib.Http.Context.{
  HttpContext, new_context, has_got_all, reset, parse_request, Outcome, done, aborts, runs_on,
}
use talib.Http.Response.{
  HttpResponse, new_response, set_status_code, set_status_message, set_close_connection,
  append_to_buffer,
}
use talib.Tcp.Connection.{Connection, Written, send, send_buffer, shutdown, is_connected}

-- A connection with the context that `onConnection` hangs on it.
pub record Session : Type 0 where
  pub connection : Connection
  pub context : HttpContext

pub default_http_callback : HttpRequest → HttpResponse → HttpResponse
default_http_callback req r =
    set_close_connection true (set_status_message (bytes "Not Found") (set_status_code 404 r))

-- A connection that comes up gets a new context.
pub on_connection : Session → Session
on_connection s = if is_connected s.connection.state then record s { context = new_context } else s

abbrev is_http10 : Version → Bool
is_http10 http10 = true
is_http10 _ = false

-- Whether the connection is to be closed behind the response.
pub wants_close : HttpRequest → Bool
wants_close req =
    let connection = get_header (bytes "Connection") req in
    str_eq connection (bytes "close")
    || is_http10 req.version && not (str_eq connection (bytes "Keep-Alive"))

pub on_request :
    (HttpRequest → HttpResponse → HttpResponse)
    → Written
    → HttpRequest
    → Connection
    → Option Connection
unfolding wants_close
on_request callback w req c =
    let response = callback req (new_response (wants_close req)) in
    do
      buf ← append_to_buffer response (new_buffer initial_size)
      (rest, c1) ← send_buffer true w buf c
      some (if response.close_connection then shutdown true c1 else c1)

-- `onRequest` and the reset that follows it, where the request is complete.
pub answer : (HttpRequest → HttpResponse → HttpResponse) → Written → Session → Option Session
unfolding on_request
answer callback w s =
    if has_got_all s.context
    then (do
      c ← on_request callback w s.context.request s.connection
      some (record { connection = c; context = reset s.context }))
    else some s

abbrev bad_request : List ℕ
bad_request = bytes "HTTP/1.1 400 Bad Request" ++ 13 ∷ 10 ∷ 13 ∷ 10 ∷ []

abbrev as_outcome : {A : Type 0} → Option A → Outcome A
as_outcome none = aborts
as_outcome (some a) = done a

-- The handler runs in the loop of the connection, on its input buffer. The two answers of the kernel
-- are for the two sends.
pub on_message :
    ℕ
    → ℕ
    → (HttpRequest → HttpResponse → HttpResponse)
    → Written
    → Written
    → Session
    → Outcome Session
unfolding answer
on_message fuel receive_time callback w1 w2 s =
    elim (parse_request fuel receive_time s.context s.connection.input) [
      | aborts ↦ aborts
      | runs_on ↦ runs_on
      | done p ↦
          let c : Connection = record s.connection { input = p.rest } in
          as_outcome (do
            c1 ←
                (if p.ok
                  then some c
                  else (do c2 ← send true w1 bad_request c; some (shutdown true c2)))
            answer callback w2 (record { connection = c1; context = p.context }))
    ]
