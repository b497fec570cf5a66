-- ===== src/Common/TimeStamp/Text.antt =====
-- What a time stamp prints.
use talib.Prelude.{
  decimal, read_digits, read-decimal, ℕ, ◌+◌, ◌*◌, ◌/◌, ◌%◌, ◌<◌, ◌≡◌, refl, ap, ◌∙◌, ◌∷◌, ◌++◌,
  arith, length-append, take_all,
}
use talib.Prelude.{length-decimal_below}
use talib.Logger.Line.{padded}
use talib.Logger.Line.Time.{length-padded}
use talib.Common.TimeStamp.{now, to_string}

-- A time before the year 300000 prints whole: its seconds, a point, and its microseconds in six
-- digits.
whole_text :
    (micros : ℕ)
    → micros < 10000000000000000000
    → to_string micros ≡ decimal (micros / 1000000) ++ b'.' ∷ padded b'0' 6 (micros % 1000000)
unfolding to_string
whole_text micros h =
    take_all 30 (decimal (micros / 1000000) ++ b'.' ∷ padded b'0' 6 (micros % 1000000)) (
      omega (
        arith,
        length-decimal_below 12 (micros / 1000000) (omega arith),
        length-padded b'0' 5 (micros % 1000000) (omega arith),
        length-append (decimal (micros / 1000000)) (b'.' ∷ padded b'0' 6 (micros % 1000000)),
      ))

-- The seconds of the clock are what is read from the text of a time stamp, up to the point.
pub read_digits-to_string :
    (tv_sec tv_usec : ℕ)
    → tv_sec < 10000000000000
    → tv_usec < 1000000
    → read_digits 0 (to_string (now tv_sec tv_usec)) ≡ tv_sec
unfolding now
read_digits-to_string tv_sec tv_usec s u =
    let m = tv_sec * 1000000 + tv_usec in
    let e : m / 1000000 ≡ tv_sec = omega arith in
    ap (read_digits 0) (whole_text m (omega arith))
    ∙ read-decimal (m / 1000000) b'.' (padded b'0' 6 (m % 1000000)) refl
    ∙ e
