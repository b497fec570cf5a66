-- ===== src/Buffer/Input.antt =====
-- `append` and `readFd` on a valid buffer.
use talib.Prelude.{
  ℕ, ◌≤◌, ◌≡◌, inl, inr, true, false, some, List, append_assoc, arith, ltb, leb, Bool-cases, length,
  take, drop, length-take, length-drop, take-append-drop, take_all,
}
use talib.Buffer.{Buffer, IsValid, received, writable_bytes, make_space, append, read_fd}
use talib.Buffer.Space.{Fits, make_space_lem, length-copy_to, Makes}
use talib.Buffer.Content.{Appends, written, written-Appends}

append_with_room :
    (bytes : List ℕ) (b : Buffer)
    → length bytes ≤ writable_bytes b
    → append bytes b ≡ some (written bytes b)
unfolding append
append_with_room bytes b h = ground (arith, length-copy_to b.writer_index bytes b.buffer)

grown_append :
    (bytes : List ℕ) (b b' : Buffer)
    → ltb (writable_bytes b) (length bytes) ≡ true
    → make_space (length bytes) b ≡ some b'
    → length bytes ≤ writable_bytes b'
    → append bytes b ≡ some (written bytes b')
unfolding append
grown_append bytes b b' short made room =
    rw (short, made) (ground (arith, length-copy_to b'.writer_index bytes b'.buffer))

length-written :
    (bytes : List ℕ) (b : Buffer)
    → IsValid b
    → length bytes ≤ writable_bytes b
    → length (written bytes b).buffer ≡ length b.buffer
length-written bytes b v h = length-copy_to b.writer_index bytes b.buffer (omega (arith, v.within))

grown_Appends :
    (bytes : List ℕ) (b b' : Buffer)
    → Makes (length bytes) b b'
    → Appends bytes b' (written bytes b')
    → Appends bytes b (written bytes b')
grown_Appends bytes b b' m w = record {
  valid = w.valid;
  bytes_behind = rw (← m.same) w.bytes_behind;
  grows = omega (arith, m.grows, length-written bytes b' m.valid m.room);
}

-- From a valid buffer an append of less than 2^31 bytes succeeds: no assertion fails, and the
-- readable bytes are the old ones followed by the new.
pub append_lem :
    (bytes : List ℕ) (b : Buffer)
    → Fits (length bytes) b
    → (b' : Buffer) × (append bytes b ≡ some b') × Appends bytes b b'
append_lem bytes b f = elim (Bool-cases (ltb (writable_bytes b) (length bytes))) [
  | inl short ↦
      let (b', made, m) = make_space_lem (length bytes) b f (ground arith) in
      let w : Appends bytes b' (written bytes b') = written-Appends bytes b' m.valid m.room in
      (written bytes b', grown_append bytes b b' short made m.room, grown_Appends bytes b b' m w)
  | inr enough ↦ (
    written bytes b,
    append_with_room bytes b (ground arith),
    written-Appends bytes b f.valid (ground arith),
  )
]

-- `readv` has filled the writable bytes.
abbrev filled : List ℕ → Buffer → Buffer
filled bytes b = written (take (writable_bytes b) bytes) b

filled_part :
    (bytes : List ℕ) (b : Buffer)
    → IsValid b
    → writable_bytes b ≤ length bytes
    → ((filled bytes b).writer_index ≡ length (filled bytes b).buffer)
      × (length (filled bytes b).buffer ≡ length b.buffer)
      × Appends (take (writable_bytes b) bytes) b (filled bytes b)
filled_part bytes b v h = (
  omega (arith, part, size, v.within),
  size,
  written-Appends (take (writable_bytes b) bytes) b v (omega (arith, part)),
)
  where
    part : length (take (writable_bytes b) bytes) ≡ writable_bytes b
    part = omega (arith, length-take (writable_bytes b) bytes)

    size : length (filled bytes b).buffer ≡ length b.buffer
    size =
        length-copy_to b.writer_index (take (writable_bytes b) bytes) b.buffer
          (omega (arith, part, v.within))

read_fd_large :
    (bytes : List ℕ) (b b' : Buffer)
    → leb (length bytes) (writable_bytes b) ≡ false
    → (filled bytes b).writer_index ≡ length (filled bytes b).buffer
    → append (drop (writable_bytes b) bytes) (filled bytes b) ≡ some b'
    → read_fd (received bytes) b ≡ some (received bytes, b')
unfolding read_fd
read_fd_large bytes b b' large index done = rw (large, ← index, done)

-- Whatever bytes `readv` returned, fewer than 2^31, `readFd` on a valid buffer succeeds, and they
-- stand behind the readable ones, those of the stack buffer included.
pub read_fd_lem :
    (bytes : List ℕ) (b : Buffer)
    → Fits (length bytes) b
    → (b' : Buffer) × (read_fd (received bytes) b ≡ some (received bytes, b')) × Appends bytes b b'
unfolding read_fd
read_fd_lem bytes b f = elim (Bool-cases (leb (length bytes) (writable_bytes b))) [
  | inl small ↦ (
    written bytes b,
    rw small (rw (take_all (writable_bytes b) bytes (ground arith))),
    written-Appends bytes b f.valid (ground arith),
  )
  | inr large ↦
      let (index, size, front) = filled_part bytes b f.valid (ground arith) in
      let (b', done, behind) = append_lem (drop (writable_bytes b) bytes) (filled bytes b) (record {
        valid = front.valid;
        narrow = omega (arith, length-drop (writable_bytes b) bytes, f.narrow);
        small = omega (arith, f.small);
      }) in
      (
        b',
        read_fd_large bytes b b' large index done,
        record {
          valid = behind.valid;
          bytes_behind =
              rw (behind.bytes_behind, front.bytes_behind, append_assoc, take-append-drop);
          grows = omega (arith, behind.grows, size, length-drop (writable_bytes b) bytes);
        },
      )
]
