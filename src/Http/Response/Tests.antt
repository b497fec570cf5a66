-- ===== src/Http/Response/Tests.antt =====
-- A short response, for src/Http/HttpResponse.cpp.
use talib.Prelude.{bytes, false, [], ◌∷◌, arith, replicate}
use talib.Buffer.{Buffer, IsValid}
use talib.Http.Response.{HttpResponse}

abbrev found : HttpResponse
found = record {
  headers = (bytes "Server", bytes "x") ∷ [];
  status_code = 200;
  status_message = bytes "OK";
  close_connection = false;
  body = bytes "hello";
}

abbrev output : Buffer
output = record { buffer = replicate 12 0; reader_index = 8; writer_index = 10 }

output-IsValid : IsValid output
output-IsValid = record { prepend = omega arith; ordered = omega arith; within = omega arith }
