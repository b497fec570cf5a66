-- ===== src/Logger/LogStream.antt =====
-- src/Logger/LogStream.h and LogStream.cpp, LogStream: the operators that put a value into the
-- buffer. A number of floating point comes with the text that `snprintf` makes of it.
pub mod Text
use talib.Prelude.{
  bytes, ℕ, ◌+◌, Bool, Option, none, some, List, [], ◌∷◌, ◌++◌, ltb, leb, if◌then◌else◌, ◌>>=◌,
  ◌>>◌, assert, length, ℤ,
}
use talib.Logger.LogBuffer.{LogBuffer, avail, append, write_current}
use talib.Logger.Convert.{convert, convert_hex}

abbrev pub max_numeric_size : ℕ
max_numeric_size = 32

pub put_bool : Bool → LogBuffer → LogBuffer
put_bool v b = append (if v then bytes "1" else bytes "0") b

-- A number, signed or not, of any width: `short` and `unsigned short` are widened first.
pub format_integer : ℤ → LogBuffer → Option LogBuffer
format_integer v b =
    if leb max_numeric_size (avail b) then (do s ← convert v; write_current s b) else some b

pub put_pointer : ℕ → LogBuffer → Option LogBuffer
put_pointer v b =
    if leb max_numeric_size (avail b)
    then (do s ← convert_hex v; write_current (bytes "0x" ++ s) b)
    else some b

-- `snprintf` stores at most 31 bytes and a zero; `add` gets the length of the whole text.
pub put_double : List ℕ → LogBuffer → Option LogBuffer
put_double s b =
    if leb max_numeric_size (avail b)
    then (do assert (ltb (length s) max_numeric_size); write_current s b)
    else some b

pub put_char : ℕ → LogBuffer → LogBuffer
put_char v b = append (v ∷ []) b

abbrev null_text : List ℕ
null_text = bytes "(NULL)"

-- A null pointer, and an empty string below, are written as such.
pub put_c_str : Option (List ℕ) → LogBuffer → LogBuffer
put_c_str none b = append null_text b
put_c_str (some s) b = append s b

pub put_string : List ℕ → LogBuffer → LogBuffer
put_string [] b = append null_text b
put_string (c ∷ s) b = append (c ∷ s) b

-- A value that a log line is put together from, by the operator that takes it.
pub data Item : Type 0 where
  boolean : Bool → Item
  integer : ℤ → Item
  pointer : ℕ → Item
  double : List ℕ → Item
  char : ℕ → Item
  c_str : Option (List ℕ) → Item
  text : List ℕ → Item

pub put : Item → LogBuffer → Option LogBuffer
unfolding put_bool format_integer put_pointer put_double put_char put_c_str put_string
put (boolean v) b = some (put_bool v b)
put (integer v) b = format_integer v b
put (pointer v) b = put_pointer v b
put (double s) b = put_double s b
put (char v) b = some (put_char v b)
put (c_str s) b = some (put_c_str s b)
put (text s) b = some (put_string s b)

unfoldable pub put_all : List Item → LogBuffer → Option LogBuffer
put_all [] b = some b
put_all (i ∷ items) b = do b' ← put i b; put_all items b'
