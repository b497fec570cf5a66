-- ===== src/Logger/Line.antt =====
-- src/Logger/Logger.h, Logger.cpp: one line of the log, from the macro to what is passed to the
-- output. The calendar of `gmtime_r`, the time, and the numbers of the process and the thread are
-- arguments; `none` is a failed assertion.
pub mod Time
pub mod Body
pub mod Head
pub mod Whole
mod Tests
use talib.Prelude.{
  decimal, bytes, ℕ, ◌+◌, ◌-◌, ◌/◌, ◌%◌, ◌||◌, Option, none, some, List, [], ◌∷◌, ◌++◌, ltb, leb,
  ◌==◌, if◌then◌else◌, ◌>>=◌, ◌>>◌, assert, length, replicate, ℤ,
}
use talib.Logger.LogBuffer.{LogBuffer, new_buffer, small_buffer}
use talib.Logger.LogStream.{Item, integer, char, c_str, put_all}

pub data LogLevel : Type 0 where
  trace debug info warn error fatal : LogLevel

abbrev pub level_number : LogLevel → ℕ
level_number trace = 0
level_number debug = 1
level_number info = 2
level_number warn = 3
level_number error = 4
level_number fatal = 5

-- An escape sequence that begins with these two digits.
abbrev pub escape : List ℕ → List ℕ
escape digits = 27 ∷ (bytes "[" ++ digits ++ bytes "m")

abbrev pub level_color : LogLevel → List ℕ
level_color trace = escape (bytes "1;35")
level_color debug = escape (bytes "1;34")
level_color info = escape (bytes "1;32")
level_color warn = escape (bytes "1;33")
level_color error = escape (bytes "1;31")
level_color fatal = escape (bytes "1;30")

abbrev pub normal : List ℕ
normal = escape (bytes "0;39")

abbrev pub level_name : LogLevel → List ℕ
level_name trace = bytes "[TRACE]"
level_name debug = bytes "[DEBUG]"
level_name info = bytes "[INFO ]"
level_name warn = bytes "[WARN ]"
level_name error = bytes "[ERROR]"
level_name fatal = bytes "[FATAL]"

-- `filenamecut`: what stands behind the last slash.
unfoldable pub filename_cut : List ℕ → List ℕ
filename_cut [] = []
filename_cut (c ∷ s) =
    let rest = filename_cut s in if c == b'/' || ltb (length rest) (length s) then rest else c ∷ s

-- The fields of `tm` that are printed.
pub record Tm : Type 0 where
  pub year : ℕ
  pub mon : ℕ
  pub mday : ℕ
  pub hour : ℕ
  pub min : ℕ
  pub sec : ℕ

-- `t_time` and `t_lastSecond` of the thread.
pub record TimeText : Type 0 where
  pub time : List ℕ
  pub last_second : ℕ

-- A number of `printf` with a width, and what it is filled up with.
unfoldable pub padded : ℕ → ℕ → ℕ → List ℕ
padded fill width n = replicate (width - length (decimal n)) fill ++ decimal n

-- "%4d-%02d-%02d %02d:%02d:%02d"
unfoldable pub date_text : Tm → List ℕ
unfolding padded
date_text t =
    padded b' ' 4 (t.year + 1900)
    ++ (b'-' ∷ padded b'0' 2 (t.mon + 1))
    ++ (b'-' ∷ padded b'0' 2 t.mday)
    ++ (b' ' ∷ padded b'0' 2 (t.hour + 8))
    ++ (b':' ∷ padded b'0' 2 t.min)
    ++ (b':' ∷ padded b'0' 2 t.sec)

-- Fmt: the text of `snprintf`, which its 32 bytes must hold.
unfoldable pub fmt : List ℕ → Option (List ℕ)
fmt s = do assert (ltb (length s) 32); some s

-- What `_formatTime` writes to the stream, for a time in microseconds.
unfoldable pub format_time : (ℕ → Tm) → ℕ → TimeText → Option (List Item × TimeText)
unfolding fmt date_text
format_time gmtime micros cache =
    let seconds = micros / 1000000 in
    let microseconds = micros % 1000000 in
    let text = date_text (gmtime seconds) in
    do
      cache' ←
          if seconds == cache.last_second
          then some cache
          else (do assert (length text == 19); some (record { time = text; last_second = seconds }))
      us ← fmt (b'.' ∷ (padded b'0' 6 microseconds ++ bytes " "))
      assert (length us == 8)
      some (c_str (some cache'.time) ∷ c_str (some us) ∷ [], cache')

-- Where a line comes from.
pub record Place : Type 0 where
  pub filename : List ℕ
  pub line : ℤ
  pub func : List ℕ
  pub pid : ℤ
  pub tid : ℤ

unfoldable pub head_items : LogLevel → Place → List Item
unfolding filename_cut
head_items level p =
    c_str (some (level_color level))
    ∷ c_str (some (level_name level))
    ∷ c_str (some normal)
    ∷ char b' '
    ∷ c_str (some (bytes " [pid:"))
    ∷ integer p.pid
    ∷ c_str (some (bytes "] [tid:"))
    ∷ integer p.tid
    ∷ c_str (some (bytes "] "))
    ∷ char b'['
    ∷ c_str (some (filename_cut p.filename))
    ∷ char b':'
    ∷ integer p.line
    ∷ c_str (some (bytes "] ["))
    ∷ c_str (some p.func)
    ∷ c_str (some (bytes "] "))
    ∷ c_str (some (level_color level))
    ∷ c_str (some (bytes "|"))
    ∷ c_str (some normal)
    ∷ []

-- The constructor: the stream after the head of the line.
unfoldable pub logger : (ℕ → Tm) → ℕ → Place → LogLevel → TimeText → Option (LogBuffer × TimeText)
unfolding format_time
logger gmtime micros p level cache = do
  (items, cache') ← format_time gmtime micros cache
  b ← put_all (items ++ head_items level p) (new_buffer small_buffer)
  some (b, cache')

-- The destructor: what is passed to the output.
unfoldable pub finished : LogBuffer → Option (List ℕ)
finished b = do b' ← put_all (c_str (some (10 ∷ [])) ∷ []) b; some b'.text

-- A macro such as LOG_INFO with the values behind it: no output if the level is below that of the log.
unfoldable pub log :
    LogLevel
    → (ℕ → Tm)
    → ℕ
    → Place
    → LogLevel
    → List Item
    → TimeText
    → Option (Option (List ℕ) × TimeText)
unfolding logger finished
log log_level gmtime micros p level items cache =
    if leb (level_number log_level) (level_number level)
    then (do
      (b, cache') ← logger gmtime micros p level cache
      b' ← put_all items b
      out ← finished b'
      some (some out, cache'))
    else some (none, cache)
