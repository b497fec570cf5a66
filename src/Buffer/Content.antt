-- ===== src/Buffer/Content.antt =====
-- What the operations do to the readable bytes: a write puts bytes behind them, and a retrieve takes
-- bytes from the front.
use talib.Prelude.{
  ℕ, ◌+◌, ◌-◌, ◌≤◌, ◌<◌, ◌≡◌, refl, sym, inl, inr, none, some, List, ◌++◌, append_assoc, arith, ltb,
  Bool-cases, length, take, drop, length-append, length-take, drop_all, take_left, drop-append_le,
  drop-drop, drop-take,
}
use talib.Buffer.{
  retrieve_until, Buffer, IsValid, content, readable_bytes, writable_bytes, copy_to, retrieve,
  retrieve_all,
}
use talib.Buffer.Space.{length-content, length-copy_to}

-- What a successful append gives.
pub record Appends (bytes : List ℕ) (b b' : Buffer) : Type 0 where
  pub valid : IsValid b'
  pub bytes_behind : content b' ≡ content b ++ bytes
  pub grows : length b'.buffer ≤ length b.buffer + length bytes

abbrev pub written : List ℕ → Buffer → Buffer
written bytes b = record b {
  buffer = copy_to b.writer_index bytes b.buffer;
  writer_index = b.writer_index + length bytes;
}

content-written :
    (bytes : List ℕ) (b : Buffer)
    → IsValid b
    → length bytes ≤ writable_bytes b
    → content (written bytes b) ≡ content b ++ bytes
content-written bytes b v h =
    rw (drop-append_le r front tail (omega (arith, length-take w b.buffer, v.ordered, v.within))) (
      rw (drop-take r w (w - r) b.buffer (omega (arith, v.ordered))) (
        rw (← append_assoc (content b) bytes rest) (
          take_left (w + length bytes - r) (content b ++ bytes) rest
            (omega (arith, length-append (content b) bytes, length-content b v, v.ordered)))))
  where
    r : ℕ
    r = b.reader_index

    w : ℕ
    w = b.writer_index

    front : List ℕ
    front = take w b.buffer

    rest : List ℕ
    rest = drop (w + length bytes) b.buffer

    tail : List ℕ
    tail = bytes ++ rest

pub written-Appends :
    (bytes : List ℕ) (b : Buffer)
    → IsValid b
    → length bytes ≤ writable_bytes b
    → Appends bytes b (written bytes b)
written-Appends bytes b v h = record {
  valid = record {
    prepend = v.prepend;
    ordered = omega (arith, v.ordered);
    within =
        omega
          (arith, length-copy_to b.writer_index bytes b.buffer (omega (arith, v.within)), v.within);
  };
  bytes_behind = content-written bytes b v h;
  grows = omega (arith, length-copy_to b.writer_index bytes b.buffer (omega (arith, v.within)));
}

-- What a successful retrieve gives.
pub record Retrieves (len : ℕ) (b b' : Buffer) : Type 0 where
  pub valid : IsValid b'
  pub bytes_left : content b' ≡ drop len (content b)
  pub same_vector : b'.buffer ≡ b.buffer

pub retrieve_all-Retrieves :
    (len : ℕ) (b : Buffer) → IsValid b → readable_bytes b ≤ len → Retrieves len b (retrieve_all b)
unfolding retrieve_all
retrieve_all-Retrieves len b v h = record {
  valid = omega (arith, v.prepend, v.ordered, v.within);
  bytes_left = sym (drop_all len (content b) (omega (arith, length-content b v)));
  same_vector = refl;
}

advance-Retrieves :
    (len : ℕ) (b : Buffer)
    → IsValid b
    → len ≤ readable_bytes b
    → Retrieves len b (record b { reader_index = b.reader_index + len })
advance-Retrieves len b v h = record {
  valid = omega (arith, v.prepend, v.ordered, v.within);
  bytes_left =
      rw (drop-take len (w - r) (w - (r + len)) (drop r b.buffer) (omega arith))
        (rw (drop-drop len r (r + len) b.buffer refl) refl);
  same_vector = refl;
}
  where
    r : ℕ
    r = b.reader_index

    w : ℕ
    w = b.writer_index

pub retrieve_lem :
    (len : ℕ) (b : Buffer)
    → IsValid b
    → len ≤ readable_bytes b
    → (b' : Buffer) × (retrieve len b ≡ some b') × Retrieves len b b'
unfolding retrieve
retrieve_lem len b v h = elim (Bool-cases (ltb len (readable_bytes b))) [
  | inl less ↦
      (record b { reader_index = b.reader_index + len }, ground arith, advance-Retrieves len b v h)
  | inr all ↦ (retrieve_all b, ground arith, retrieve_all-Retrieves len b v (ground arith))
]

-- More bytes than there are: the assertion stops the process.
pub retrieve_too_many : (len : ℕ) (b : Buffer) → readable_bytes b < len → retrieve len b ≡ none
unfolding retrieve
retrieve_too_many len b h = ground arith

pub retrieve_until_lem :
    (len : ℕ) (b : Buffer)
    → IsValid b
    → len ≤ readable_bytes b
    → (b' : Buffer) × (retrieve_until len b ≡ some b') × Retrieves len b b'
unfolding retrieve_until
retrieve_until_lem len b v h = let (b', e, r) = retrieve_lem len b v h in (b', ground (arith, e), r)
