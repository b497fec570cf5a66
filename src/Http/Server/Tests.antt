-- ===== src/Http/Server/Tests.antt =====
-- A request that the default callback answers, for src/Http/HttpServer.cpp.
use talib.Prelude.{
  decimal, bytes, ℕ, ◌+◌, ◌≡◌, refl, true, false, none, some, List, [], ◌++◌, arith, length,
  replicate, length-append, length-replicate,
}
use talib.Buffer.{IsValid, content}
use talib.Reactor.Channel.{read_event, none_event}
use talib.Tcp.Connection.{connected, took}
use talib.Tcp.Connection.Stream.{stream}
use talib.Http.Request.{get, http11, empty_request, method_string}
use talib.Http.Context.{new_context, done}
use talib.Http.Context.Print.{Parts, IsRequest, request_text}
use talib.Http.Context.RoundTrip.{parsed}
use talib.Http.Response.{
  HttpResponse, new_response, set_status_code, set_status_message, set_close_connection,
}
use talib.Http.Response.Text.{response_text}
use talib.Http.Server.{Session, default_http_callback, on_message}
use talib.Http.Server.Answer.{response_to, Sendable, on_message-request_text}

abbrev parts : Parts
parts = record { method = get; path = bytes "/"; query = none; version = http11; headers = [] }

parts-IsRequest : IsRequest parts
unfolding method_string
parts-IsRequest = record {
  method_known = λ e. cc;
  version_known = λ e. cc;
  path_plain = ground arith;
  query_plain = tt;
  one_line = ground arith;
  headers_plain = tt;
}

abbrev text : List ℕ
text = request_text parts (bytes "GET")

abbrev session : Session
session = record {
  connection = record {
    state = connected;
    channel = record {
      fd = 5;
      events = read_event;
      revents = none_event;
      index = some 1;
      added_to_loop = true;
      has_read = true;
      has_write = false;
      has_error = false;
      has_close = true;
    };
    input = record {
      buffer = replicate 8 0 ++ text;
      reader_index = 8;
      writer_index = 8 + length text;
    };
    output = record { buffer = replicate 12 0; reader_index = 8; writer_index = 8 };
    effects = [];
  };
  context = new_context;
}

input-IsValid : IsValid session.connection.input
input-IsValid = record {
  prepend = omega arith;
  ordered = omega arith;
  within = omega (arith, length-append (replicate 8 0) text, length-replicate {A = ℕ} 8 0);
}

-- The default callback does not look at the request.
abbrev answered : HttpResponse
answered = response_to default_http_callback (parsed 7 parts empty_request)

session-Sendable : Sendable (response_text answered) (took 4) session.connection
unfolding default_http_callback new_response set_status_code set_status_message set_close_connection
    decimal
session-Sendable = record {
  up = refl;
  no_fault = refl;
  output_valid = record { prepend = omega arith; ordered = omega arith; within = omega arith };
  output_small = omega arith;
  text_small = omega arith;
}

on_message-request_text_example :
    (s' : Session) × (on_message 2 7 default_http_callback (took 0) (took 4) session ≡ done s')
    × (s'.context ≡ new_context)
    × (content s'.connection.input ≡ bytes "GET")
    × (stream s'.connection ≡ stream session.connection ++ response_text answered)
unfolding method_string
on_message-request_text_example =
    on_message-request_text 2 7 default_http_callback (took 0) (took 4) parts (bytes "GET") session
      refl input-IsValid refl parts-IsRequest (omega arith) session-Sendable
