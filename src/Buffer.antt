-- ===== src/Buffer.antt =====
-- src/common/Buffer.h and src/common/Buffer.cpp: the byte buffer of a connection. The vector is a
-- list of bytes, the two indices are numbers; `none` is a failed assertion or an exception of the
-- vector. A pointer into the readable bytes is its offset from `peek`.
pub mod Space
pub mod Content
pub mod Input
pub mod Search
pub mod Queue
mod Tests
use talib.Prelude.{
  ℕ, suc, ◌+◌, ◌-◌, ◌%◌, ◌^◌, ◌≤◌, ◌&&◌, Option, none, some, List, [], ◌∷◌, ◌++◌, ltb, leb, ◌==◌,
  if◌then◌else◌, ◌>>=◌, ◌>>◌, assert, length, take, drop, replicate,
}

pub record Buffer : Type 0 where
  pub buffer : List ℕ
  pub reader_index : ℕ
  pub writer_index : ℕ

abbrev pub cheap_prepend : ℕ
cheap_prepend = 8

abbrev pub initial_size : ℕ
initial_size = 4096

-- A new buffer: zero bytes, both indices behind the prepend area.
pub new_buffer : ℕ → Buffer
new_buffer size = record {
  buffer = replicate (cheap_prepend + size) 0;
  reader_index = cheap_prepend;
  writer_index = cheap_prepend;
}

abbrev pub readable_bytes : Buffer → ℕ
readable_bytes b = b.writer_index - b.reader_index

abbrev pub writable_bytes : Buffer → ℕ
writable_bytes b = length b.buffer - b.writer_index

abbrev pub prependable_bytes : Buffer → ℕ
prependable_bytes b = b.reader_index

-- The bytes from `peek()` to `beginWrite()`.
abbrev pub content : Buffer → List ℕ
content b = take (b.writer_index - b.reader_index) (drop b.reader_index b.buffer)

unfoldable pub has_written : ℕ → Buffer → Option Buffer
has_written len b = do
  assert (leb len (writable_bytes b))
  some (record b { writer_index = b.writer_index + len })

pub unwrite : ℕ → Buffer → Option Buffer
unwrite len b = do
  assert (leb len (readable_bytes b))
  some (record b { writer_index = b.writer_index - len })

unfoldable pub retrieve_all : Buffer → Buffer
retrieve_all b = record b { reader_index = cheap_prepend; writer_index = cheap_prepend }

pub retrieve : ℕ → Buffer → Option Buffer
unfolding retrieve_all
retrieve len b = do
  assert (leb len (readable_bytes b))
  some (
      if ltb len (readable_bytes b)
      then record b { reader_index = b.reader_index + len }
      else retrieve_all b)

-- The pointer `end` is `peek() + offset`, so `peek() <= end` holds.
pub retrieve_until : ℕ → Buffer → Option Buffer
retrieve_until offset b = do assert (leb offset (readable_bytes b)); retrieve offset b

pub retrieve_as_string : ℕ → Buffer → Option (List ℕ × Buffer)
unfolding retrieve
retrieve_as_string len b = do
  assert (leb len (readable_bytes b))
  rest ← retrieve len b
  some (take len (drop b.reader_index b.buffer), rest)

-- `std::search` for the two bytes of kCRLF, from `peek()`; none if there is no match.
unfoldable pub find_crlf_in : List ℕ → Option ℕ
find_crlf_in [] = none
find_crlf_in (c ∷ []) = none
find_crlf_in (c ∷ d ∷ rest) =
    let later = find_crlf_in (d ∷ rest) in
    if c == 13 && d == 10 then some 0 else (do n ← later; some (suc n))

abbrev pub find_crlf : Buffer → Option ℕ
find_crlf b = find_crlf_in (content b)

-- A `size_t` passed as `int` and used as `size_t` again: the low 32 bits, sign-extended.
pub int_arg : ℕ → ℕ
int_arg len = let low = len % 2 ^ 32 in if ltb low (2 ^ 31) then low else 2 ^ 64 - 2 ^ 32 + low

abbrev pub vector_max_size : ℕ
vector_max_size = 2 ^ 63 - 1

-- `vector::resize`: new bytes are zero, and a size past the maximum throws.
pub resize : ℕ → List ℕ → Option (List ℕ)
resize n bytes =
    if ltb vector_max_size n then none else some (take n bytes ++ replicate (n - length bytes) 0)

-- `std::copy` to the position `pos` of the vector.
abbrev pub copy_to : ℕ → List ℕ → List ℕ → List ℕ
copy_to pos bytes buffer = take pos buffer ++ (bytes ++ drop (pos + length bytes) buffer)

pub make_space : ℕ → Buffer → Option Buffer
unfolding int_arg resize
make_space n b =
    let len = int_arg n in
    if ltb (writable_bytes b + prependable_bytes b) ((len + cheap_prepend) % 2 ^ 64)
    then (do
      grown ← resize ((b.writer_index + len) % 2 ^ 64) b.buffer
      some (record b { buffer = grown }))
    else (do
      assert (ltb cheap_prepend b.reader_index)
      let moved : Buffer = record {
        buffer = copy_to cheap_prepend (content b) b.buffer;
        reader_index = cheap_prepend;
        writer_index = cheap_prepend + readable_bytes b;
      }
      assert (readable_bytes b == readable_bytes moved)
      some moved)

unfoldable pub append : List ℕ → Buffer → Option Buffer
unfolding has_written
append bytes b = do
  roomy ← (if ltb (writable_bytes b) (length bytes) then make_space (length bytes) b else some b)
  assert (leb (length bytes) (writable_bytes roomy))
  has_written (length bytes)
      (record roomy { buffer = copy_to roomy.writer_index bytes roomy.buffer })

abbrev pub extra_buffer_size : ℕ
extra_buffer_size = 10240

-- What `readv` does: an error number, or the bytes that the kernel had.
pub data Incoming : Type 0 where
  failed : ℕ → Incoming
  received : List ℕ → Incoming

-- The room that `readFd` offers to `readv`: the writable bytes, and the stack buffer where the
-- writable bytes are fewer than it holds.
abbrev pub read_room : Buffer → ℕ
read_room b =
    if ltb (writable_bytes b) extra_buffer_size
    then writable_bytes b + extra_buffer_size
    else writable_bytes b

-- `readv` fills the writable bytes first, then the stack buffer. The result is the count that
-- `readv` returned, or the error number that the caller finds in `savedErrno`.
pub read_fd : Incoming → Buffer → Option (Incoming × Buffer)
read_fd (failed e) b = some (failed e, b)
read_fd (received bytes) b =
    let writable = writable_bytes b in
    let filled : Buffer = record b {
      buffer = copy_to b.writer_index (take writable bytes) b.buffer;
    } in
    if leb (length bytes) writable
    then some (received bytes, record filled { writer_index = filled.writer_index + length bytes })
    else (do
      rest ← append (drop writable bytes) (record filled { writer_index = length filled.buffer })
      some (received bytes, rest))

-- The indices are in order, and the vector is within its maximal size.
pub record IsValid (b : Buffer) : Type 0 where
  pub prepend : 8 ≤ b.reader_index
  pub ordered : b.reader_index ≤ b.writer_index
  pub within : b.writer_index ≤ length b.buffer
