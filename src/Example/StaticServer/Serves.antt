-- ===== src/Example/StaticServer/Serves.antt =====
-- A file is served from the file system once, and from the cache then.
use talib.Prelude.{
  bytes, str_eq, ℕ, ◌+◌, ◌<◌, ◌≡◌, refl, ◌∙◌, inl, inr, true, none, some, List, [], ◌∷◌, ◌++◌,
  Bool-cases, Option-cases, drop, take, length, ◌%◌, arith, ltb, take_all,
}
use talib.Prelude.Table.{look_up}
use talib.Http.Response.{
  HttpResponse, set_body, set_status_code, set_status_message, set_content_type, add_header,
}
use talib.Http.Mimetype.{get_mime}
use talib.Cache.Lfu.{LfuCache, get}
use talib.Cache.Lfu.Valid.{IsValid}
use talib.Cache.Lfu.Use.{set-Stores, get-IsValid, get_absent}
use talib.Example.StaticServer.{
  Entry, regular, c_str, file_path, last_dot, suffix_of, respond, static_request,
}

last_dot-cons : (s : List ℕ) → (i : ℕ) × (last_dot (46 ∷ s) ≡ some i)
unfolding last_dot
last_dot-cons s = elim (Option-cases (last_dot s)) [
  | inl e ↦ (0, rw e refl)
  | inr (i, e) ↦ (i + 1, rw e refl)
]

-- Every path of the server has a dot, that of `./www` if no other.
suffix_of-file_path :
    (path : List ℕ) → (suffix : List ℕ) × (suffix_of (file_path path) ≡ some suffix)
unfolding suffix_of file_path
suffix_of-file_path path =
    elim (Bool-cases (str_eq (bytes "./www" ++ c_str path) (bytes "./www/"))) [
      | inl e ↦
          let (i, d) = last_dot-cons (bytes "/www" ++ (c_str path ++ bytes "index.html")) in
          (drop i ((bytes "./www" ++ c_str path) ++ bytes "index.html"), rw (e, d) refl)
      | inr e ↦
          let (i, d) = last_dot-cons (bytes "/www" ++ c_str path) in
          (drop i (bytes "./www" ++ c_str path), rw (e, d) refl)
    ]

-- The answer with a body.
abbrev pub IsAnswer : List ℕ → HttpResponse → Type 0
IsAnswer contents r = (r.status_code ≡ 200) × (r.body ≡ contents)

answer : List ℕ → List ℕ → HttpResponse → HttpResponse
answer suffix contents resp = set_body contents (
    add_header (bytes "Server") (bytes "Muduo") (
      set_content_type (get_mime suffix)
        (set_status_message (bytes "OK") (set_status_code 200 resp))))

respond-IsAnswer :
    (path contents : List ℕ) (resp : HttpResponse)
    → (r : HttpResponse) × (respond (file_path path) contents resp ≡ some r) × IsAnswer contents r
unfolding respond answer set_status_code set_status_message set_content_type add_header set_body
respond-IsAnswer path contents resp =
    let (suffix, e) = suffix_of-file_path path in
    (answer suffix contents resp, rw e refl, (refl, refl))

-- When the cache is valid, has a capacity above 0 and does not have the path, and the file there is
-- below 2^31 bytes, a request for it is answered with the file; and if the next request is for it
-- again, that is answered with the same body from the cache, whatever has become of the file.
pub static_request_twice :
    (file_at later : List ℕ → Entry) (path contents : List ℕ) (resp1 resp2 : HttpResponse)
    (cache : LfuCache)
    → IsValid cache
    → 0 < cache.capacity
    → look_up (c_str path) cache.kmap ≡ none
    → file_at (file_path path) ≡ regular contents
    → length contents < 2147483648
    → (r1 r2 : HttpResponse) × (c1 c2 : LfuCache) × (static_request file_at path resp1 cache
        ≡ some (r1, c1))
      × IsAnswer contents r1
      × (static_request later path resp2 c1 ≡ some (r2, c2))
      × IsAnswer contents r2
      × IsValid c2
unfolding static_request
static_request_twice file_at later path contents resp1 resp2 cache v h a f l =
    let whole : length contents % 4294967296 ≡ length contents = omega arith in
    let fits : ltb (length contents) 2147483648 ≡ true = ground arith in
    let mapped : take (length contents) contents ≡ contents =
      take_all (length contents) contents (omega arith) in
    let (c1, d, s) = set-Stores (c_str path) contents cache v h a in
    let (c2, e, _, u) = get-IsValid (c_str path) [] c1 s.valid in
    let (r1, o1, b1) = respond-IsAnswer path contents resp1 in
    let (r2, o2, b2) = respond-IsAnswer path contents resp2 in
    let hit : get (c_str path) [] c1 ≡ some (true, contents, c2) =
      e ∙ rw (s.found, s.own_value) refl in
    (
      r1,
      r2,
      c1,
      c2,
      rw (get_absent (c_str path) [] cache v a, f, whole, fits, mapped, d, o1) refl,
      b1,
      rw (hit, o2) refl,
      b2,
      u,
    )
