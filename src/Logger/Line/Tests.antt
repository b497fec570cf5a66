-- ===== src/Logger/Line/Tests.antt =====
-- A line at half past eight in the evening, for src/Logger/Logger.cpp.
use talib.Prelude.{decimal, bytes, ℕ, ◌≡◌, refl, inl, none, some, List, [], ◌∷◌, arith, pos, ◌++◌}
use talib.Logger.LogStream.{Item, integer, c_str}
use talib.Logger.Line.{
  info, warn, error, Tm, TimeText, Place, date_text, format_time, filename_cut, padded, log,
}
use talib.Logger.Line.Time.{stamp, IsRight, fraction, format_time_lem}
use talib.Logger.Line.Whole.{log_whole}
use talib.Logger.Line.Head.{join, head_text, IsBase}
use talib.Logger.Line.Body.{Texts}

abbrev evening : Tm
evening = record { year = 120; mon = 10; mday = 26; hour = 20; min = 30; sec = 5 }

abbrev gmtime : ℕ → Tm
gmtime s = evening

abbrev cache : TimeText
cache = record { time = []; last_second = 0 }

-- The hour is 28, since no day is carried.
hour_28 : date_text evening ≡ bytes "2020-11-26 28:30:05"
unfolding date_text padded decimal
hour_28 = refl

format_time_lem_example :
    (cache' : TimeText) × (format_time gmtime 7000042 cache
      ≡ some (c_str (some (stamp evening)) ∷ c_str (some (fraction 7000042)) ∷ [], cache'))
    × IsRight gmtime cache'
format_time_lem_example =
    format_time_lem gmtime 7000042 cache (inl refl) (omega arith)
      (omega arith, omega arith, omega arith, omega arith, omega arith, omega arith)

abbrev place : Place
place = record {
  filename = bytes "src/Tcp/TcpServer.cpp";
  line = pos 52;
  func = bytes "newConnetion";
  pid = pos 100;
  tid = pos 101;
}

file_name : filename_cut place.filename ≡ bytes "TcpServer.cpp"
unfolding filename_cut
file_name = refl

abbrev values : List Item
values = c_str (some (bytes "fd=")) ∷ integer (pos 7) ∷ []

below_level : log warn gmtime 7000042 place info values cache ≡ some (none, cache)
unfolding log
below_level = refl

log_whole_example :
    (t : List ℕ) × (base : List ℕ) × (body : List ℕ) × (cache' : TimeText) × (log info gmtime
        7000042 place error values cache
      ≡ some (some t, cache'))
    × IsBase place.filename base
    × Texts values body
    × (t
        ≡ join (stamp evening ∷ fraction 7000042 ∷ head_text error place base) ++ (body ++ 10 ∷ []))
    × IsRight gmtime cache'
log_whole_example =
    log_whole info error gmtime 7000042 place values cache refl (inl refl) (omega arith)
      (omega arith, omega arith, omega arith, omega arith, omega arith, omega arith)
      (omega arith, omega arith, omega arith) (tt, (omega arith, tt)) (omega arith)
