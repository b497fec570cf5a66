-- ===== src/Example/StaticServer.antt =====
-- example/static_server_example.cpp: the callback of the static server, over the cache, the content
-- types and the response. What stands at a path of the file system is an argument.
pub mod Serves
mod Tests
use talib.Prelude.{
  bytes, str_eq, ℕ, ◌+◌, ◌/◌, Option, none, some, List, [], ◌∷◌, ◌++◌, ◌==◌, if◌then◌else◌, ◌>>=◌,
  ◌>>◌, drop, take, length, ◌%◌, assert, ltb,
}
use talib.Http.Response.{
  HttpResponse, set_status_code, set_status_message, set_content_type, add_header, set_body,
}
use talib.Http.Mimetype.{get_mime}
use talib.Cache.Lfu.{LfuCache, get, set}

-- What `stat`, `open` and `mmap` find: nothing, the contents of a file, or something that has no
-- contents to map, as a directory.
pub data Entry : Type 0 where
  missing : Entry
  regular : List ℕ → Entry
  unmappable : Entry

-- A string through `c_str`: up to its first zero byte.
unfoldable pub c_str : List ℕ → List ℕ
c_str [] = []
c_str (c ∷ s) = let rest = c_str s in if c == 0 then [] else c ∷ rest

unfoldable pub file_path : List ℕ → List ℕ
unfolding c_str
file_path path =
    let filepath = bytes "./www" ++ c_str path in
    if str_eq filepath (bytes "./www/") then filepath ++ bytes "index.html" else filepath

-- `rfind('.')`.
unfoldable pub last_dot : List ℕ → Option ℕ
last_dot [] = none
last_dot (c ∷ s) = elim (last_dot s) [
  | none ↦ if c == 46 then some 0 else none
  | some i ↦ some (i + 1)
]

-- `substr` throws at a position past the end.
unfoldable pub suffix_of : List ℕ → Option (List ℕ)
unfolding last_dot
suffix_of filepath = do dot_pos ← last_dot filepath; some (drop dot_pos filepath)

-- What both branches that find a body do.
unfoldable pub respond : List ℕ → List ℕ → HttpResponse → Option HttpResponse
unfolding suffix_of get_mime
respond filepath context resp = do
  suffix ← suffix_of filepath
  some (
      set_body context (
        add_header (bytes "Server") (bytes "Muduo") (
          set_content_type (get_mime suffix)
            (set_status_message (bytes "OK") (set_status_code 200 resp)))))

-- `none` is an exception, or the use of a mapping that failed. The size of the file is cut to an `int`:
-- a string of a negative size throws.
unfoldable pub static_request :
    (List ℕ → Entry) → List ℕ → HttpResponse → LfuCache → Option (HttpResponse × LfuCache)
unfolding file_path c_str respond
static_request file_at request_path resp cache = do
  let filepath = file_path request_path
  let path = c_str request_path
  (found, context, cache1) ← get path [] cache
  if found
      then (do resp' ← respond filepath context resp; some (resp', cache1))
      else (elim (file_at filepath) [
        | missing ↦ some (resp, cache1)
        | unmappable ↦ none
        | regular contents ↦ do
          let size = length contents % 4294967296
          assert (ltb size 2147483648)
          let mapped = take size contents
          cache2 ← set path mapped cache1
          resp' ← respond filepath mapped resp
          some (resp', cache2)
      ])
