-- ===== src/Example/StaticServer/Tests.antt =====
-- One file, and a directory.
use talib.Prelude.{
  bytes, str_eq, lookup, ℕ, ◌≡◌, refl, true, none, some, List, [], ◌∷◌, arith, if◌then◌else◌,
}
use talib.Prelude.Table.{look_up}
use talib.Http.Response.{HttpResponse}
use talib.Http.Mimetype.{get_mime}
use talib.Cache.Lfu.{LfuCache, with_capacity, get}
use talib.Cache.Lfu.Valid.{IsValid, with_capacity-IsValid}
use talib.Example.StaticServer.{
  Entry, missing, regular, unmappable, c_str, file_path, last_dot, suffix_of, static_request,
}
use talib.Example.StaticServer.Serves.{IsAnswer, static_request_twice}

abbrev site : List ℕ → Entry
site path =
    if str_eq path (bytes "./www/a.png")
    then regular (1 ∷ 2 ∷ [])
    else if str_eq path (bytes "./www/b")
    then unmappable
    else missing

abbrev nothing_left : List ℕ → Entry
nothing_left path = missing

abbrev fresh_response : HttpResponse
fresh_response = record {
  headers = [];
  status_code = 0;
  status_message = [];
  close_connection = true;
  body = [];
}

static_request_twice_example :
    (r1 r2 : HttpResponse) × (c1 c2 : LfuCache) × (static_request site
        (bytes "/a.png")
        fresh_response
        (with_capacity 100)
      ≡ some (r1, c1))
    × IsAnswer (1 ∷ 2 ∷ []) r1
    × (static_request nothing_left (bytes "/a.png") fresh_response c1 ≡ some (r2, c2))
    × IsAnswer (1 ∷ 2 ∷ []) r2
    × IsValid c2
unfolding with_capacity look_up file_path c_str str_eq
static_request_twice_example =
    static_request_twice site nothing_left (bytes "/a.png") (1 ∷ 2 ∷ []) fresh_response
      fresh_response (with_capacity 100) (with_capacity-IsValid 100) (omega arith) refl refl
      (omega arith)

-- A file that is not there leaves the response without a status, and a directory ends the process.
not_found :
    static_request site (bytes "/c") fresh_response (with_capacity 100)
    ≡ some (fresh_response, with_capacity 100)
unfolding static_request with_capacity get look_up file_path c_str str_eq
not_found = refl

directory : static_request site (bytes "/b") fresh_response (with_capacity 100) ≡ none
unfolding static_request with_capacity get look_up file_path c_str str_eq
directory = refl

content_type : suffix_of (file_path (bytes "/a.png")) ≡ some (bytes ".png")
unfolding suffix_of last_dot file_path c_str str_eq
content_type = refl

png : get_mime (bytes ".png") ≡ bytes "image/png"
unfolding get_mime lookup str_eq
png = refl
