-- ===== src/Common/TimeStamp.antt =====
-- src/common/TimeStamp.h and TimeStamp.cpp, for times from 1970 on: a time stamp is its microseconds.
-- The clock and the calendar of `gmtime_r` are arguments.
pub mod Text
use talib.Prelude.{
  decimal, ℕ, ◌+◌, ◌*◌, ◌/◌, ◌%◌, min, Bool, List, ◌∷◌, ◌++◌, ltb, if◌then◌else◌, take,
}
use talib.Logger.Line.{Tm, padded}

abbrev pub micro_seconds_per_second : ℕ
micro_seconds_per_second = 1000 * 1000

-- The seconds and microseconds of `gettimeofday`.
unfoldable pub now : ℕ → ℕ → ℕ
now tv_sec tv_usec = tv_sec * micro_seconds_per_second + tv_usec

abbrev pub valid : ℕ → Bool
valid micros = ltb 0 micros

-- `snprintf` cuts what the array does not hold.
unfoldable pub to_string : ℕ → List ℕ
unfolding padded
to_string micros = take 30 (
    decimal (micros / micro_seconds_per_second)
    ++ b'.' ∷ padded b'0' 6 (micros % micro_seconds_per_second))

-- "%4d%02d%02d %02d:%02d:%02d"
unfoldable pub date_time : Tm → List ℕ
unfolding padded
date_time t =
    padded b' ' 4 (t.year + 1900)
    ++ padded b'0' 2 (t.mon + 1)
    ++ padded b'0' 2 t.mday
    ++ (b' ' ∷ padded b'0' 2 t.hour)
    ++ (b':' ∷ padded b'0' 2 t.min)
    ++ (b':' ∷ padded b'0' 2 t.sec)

unfoldable pub to_formatted_string : (ℕ → Tm) → Bool → ℕ → List ℕ
unfolding date_time padded
to_formatted_string gmtime show_microseconds micros =
    let text = date_time (gmtime (micros / micro_seconds_per_second)) in
    take 63 (
      if show_microseconds
      then text ++ b'.' ∷ padded b'0' 6 (micros % micro_seconds_per_second)
      else text)
