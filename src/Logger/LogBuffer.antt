-- ===== src/Logger/LogBuffer.antt =====
-- src/Logger/LogStream.h, LogBuffer: an array of SIZE bytes with a pointer behind what is written.
-- `none` is a write past the array.
use talib.Prelude.{
  ℕ, ◌-◌, ◌*◌, ◌<◌, ◌≡◌, Option, some, List, [], ◌++◌, arith, ltb, if◌then◌else◌, ◌>>◌, assert,
  length, length-append,
}

pub record LogBuffer : Type 0 where
  pub size : ℕ
  pub text : List ℕ

unfoldable pub new_buffer : ℕ → LogBuffer
new_buffer size = record { size = size; text = [] }

abbrev pub small_buffer : ℕ
small_buffer = 4096

abbrev pub large_buffer : ℕ
large_buffer = 4096 * 1000

abbrev pub avail : LogBuffer → ℕ
avail b = b.size - length b.text

-- A text that does not fit is dropped whole.
unfoldable pub append : List ℕ → LogBuffer → LogBuffer
append buf b = if ltb (length buf) (avail b) then record b { text = b.text ++ buf } else b

-- A text and its zero byte written at `current()`, and `add` of the length of the text.
unfoldable pub write_current : List ℕ → LogBuffer → Option LogBuffer
write_current buf b = do
  assert (ltb (length buf) (avail b))
  some (record b { text = b.text ++ buf })

unfoldable pub reset : LogBuffer → LogBuffer
reset b = record b { text = [] }

-- There is room for one more byte.
abbrev pub IsOpen : LogBuffer → Type 0
IsOpen b = length b.text < b.size

pub append-IsOpen : (buf : List ℕ) (b : LogBuffer) → IsOpen b → IsOpen (append buf b)
unfolding append
append-IsOpen buf b h = ground (arith, length-append b.text buf)

pub size-append : (buf : List ℕ) (b : LogBuffer) → (append buf b).size ≡ b.size
unfolding append
size-append buf b = ground arith
