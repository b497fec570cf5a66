-- ===== src/Buffer/Space.antt =====
-- Room for an append: `makeSpace` on a valid buffer.
use talib.Prelude.{
  replicate, length-replicate, take_all, some, Bool-cases, ℕ, ◌+◌, ◌-◌, ◌^◌, ◌≤◌, ◌<◌, ◌≡◌, refl,
  List, ◌++◌, arith, length, take, drop, length-append, length-take, length-drop, take_left,
  drop_left, take-append_le, drop-append_le, ltb, ◌%◌, inl, inr,
}
use talib.Buffer.{
  Buffer, IsValid, content, readable_bytes, copy_to, int_arg, writable_bytes, cheap_prepend,
  make_space, resize,
}

pub length-content : (b : Buffer) → IsValid b → length (content b) ≡ readable_bytes b
length-content b v = omega (
  arith,
  length-take (b.writer_index - b.reader_index) (drop b.reader_index b.buffer),
  length-drop b.reader_index b.buffer,
)

pub length-copy_to :
    (pos : ℕ) (bytes buffer : List ℕ)
    → pos + length bytes ≤ length buffer
    → length (copy_to pos bytes buffer) ≡ length buffer
length-copy_to pos bytes buffer h = omega (
  arith,
  length-append (take pos buffer) (bytes ++ drop (pos + length bytes) buffer),
  length-append bytes (drop (pos + length bytes) buffer),
  length-take pos buffer,
  length-drop (pos + length bytes) buffer,
)

pub int_arg_small : (n : ℕ) → n < 2 ^ 31 → int_arg n ≡ n
unfolding int_arg
int_arg_small n h = ground arith

-- A longer vector has the same bytes in front.
slice-append :
    (r w : ℕ) (buffer more : List ℕ)
    → r ≤ w
    → w ≤ length buffer
    → take (w - r) (drop r (buffer ++ more)) ≡ take (w - r) (drop r buffer)
slice-append r w buffer more p q =
    rw (drop-append_le r buffer more (omega arith))
      (take-append_le (w - r) (drop r buffer) more (omega (arith, length-drop r buffer)))

-- The bytes that a copy puts at `pos` are read back there.
pub slice-copy_to :
    (pos : ℕ) (bytes buffer : List ℕ)
    → pos ≤ length buffer
    → take (length bytes) (drop pos (copy_to pos bytes buffer)) ≡ bytes
slice-copy_to pos bytes buffer h =
    rw
      (drop_left pos (take pos buffer) (bytes ++ drop (pos + length bytes) buffer)
        (omega (arith, length-take pos buffer)))
      (take_left (length bytes) bytes (drop (pos + length bytes) buffer) refl)

-- With room for `len` more bytes the vector stays within the size that `resize` accepts.
pub record Fits (len : ℕ) (b : Buffer) : Type 0 where
  pub valid : IsValid b
  pub narrow : len < 2 ^ 31
  pub small : length b.buffer < 2 ^ 62

pub record Makes (n : ℕ) (b b' : Buffer) : Type 0 where
  pub valid : IsValid b'
  pub same : content b' ≡ content b
  pub room : n ≤ writable_bytes b'
  pub grows : length b'.buffer ≤ length b.buffer + n

abbrev grown : ℕ → Buffer → Buffer
grown n b = record b {
  buffer = take (b.writer_index + n) b.buffer ++ replicate (b.writer_index + n - length b.buffer) 0;
}

abbrev moved : Buffer → Buffer
moved b = record {
  buffer = copy_to cheap_prepend (content b) b.buffer;
  reader_index = cheap_prepend;
  writer_index = cheap_prepend + readable_bytes b;
}

grown-Makes : (n : ℕ) (b : Buffer) → IsValid b → writable_bytes b < n → Makes n b (grown n b)
grown-Makes n b v h = record {
  valid = record { prepend = v.prepend; ordered = v.ordered; within = omega (arith, size) };
  same = rw (take_all (b.writer_index + n) b.buffer (omega arith)) (
      slice-append b.reader_index b.writer_index b.buffer
        (replicate (b.writer_index + n - length b.buffer) 0) v.ordered v.within);
  room = omega (arith, size);
  grows = omega (arith, size, v.within);
}
  where
    size : length (grown n b).buffer ≡ b.writer_index + n
    size = omega (
      arith,
      length-append (take (b.writer_index + n) b.buffer)
          (replicate (b.writer_index + n - length b.buffer) 0),
      length-take (b.writer_index + n) b.buffer,
      length-replicate {A = ℕ} (b.writer_index + n - length b.buffer) 0,
    )

moved-Makes :
    (n : ℕ) (b : Buffer)
    → IsValid b
    → n + cheap_prepend ≤ writable_bytes b + b.reader_index
    → Makes n b (moved b)
moved-Makes n b v h = record {
  valid = record { prepend = omega arith; ordered = omega arith; within = omega (arith, size) };
  same = same;
  room = omega (arith, size);
  grows = omega (arith, size, v.within);
}
  where
    open v use {ordered, within}

    size : length (moved b).buffer ≡ length b.buffer
    size =
        length-copy_to cheap_prepend (content b) b.buffer
          (omega (arith, length-content b v, v.prepend, v.ordered, v.within))

    same : content (moved b) ≡ content b
    same =
        let e : 8 + readable_bytes b - 8 ≡ length (content b) = omega (arith, length-content b v) in
        rw e (slice-copy_to cheap_prepend (content b) b.buffer (omega arith))

-- On a valid buffer with too little room `makeSpace` succeeds, whichever way it makes the room.
pub make_space_lem :
    (n : ℕ) (b : Buffer)
    → Fits n b
    → writable_bytes b < n
    → (b' : Buffer) × (make_space n b ≡ some b') × Makes n b b'
unfolding make_space resize
make_space_lem n b f h =
    elim (Bool-cases (ltb (writable_bytes b + b.reader_index) ((n + cheap_prepend) % 2 ^ 64))) [
      | inl grow ↦ (
        grown n b,
        ground (arith, int_arg_small n f.narrow, f.small, f.valid.within),
        grown-Makes n b f.valid h,
      )
      | inr keep ↦ (
        moved b,
        ground (arith, int_arg_small n f.narrow),
        moved-Makes n b f.valid (ground (arith, f.narrow)),
      )
    ]
