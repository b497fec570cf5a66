-- ===== src/Logger/Line/Whole.antt =====
-- A line of the log from the macro to the output.
use talib.Prelude.{
  ℕ, ◌/◌, ◌^◌, ◌≤◌, ◌<◌, ◌≡◌, refl, sym, ◌∙◌, true, some, List, [], ◌∷◌, ◌++◌, arith, leb,
  >>=-eq-some, length, All, magnitude, ◌+◌,
}
use talib.Logger.LogBuffer.{LogBuffer, new_buffer, small_buffer}
use talib.Logger.LogStream.{Item, c_str, put_all}
use talib.Logger.LogStream.Text.{IsItem, put_all-IsOpen}
use talib.Logger.Line.{
  LogLevel, level_number, filename_cut, trace, debug, info, warn, error, fatal, Tm, TimeText, Place,
  level_color, level_name, head_items, logger, finished, log,
}
use talib.Logger.Line.Time.{
  stamp, length-stamp, length-fraction, IsTm, IsRight, fraction, format_time_lem,
}
use talib.Logger.Line.Head.{
  join, head_text, IsBase, filename_cut-IsBase, length-filename_cut, plain-Texts, Texts-append,
}
use talib.Logger.Line.Body.{room_all, Texts, put_all_whole, put_all-append}

abbrev pub time_items : (ℕ → Tm) → ℕ → List Item
time_items gmtime micros =
    c_str (some (stamp (gmtime (micros / 1000000)))) ∷ c_str (some (fraction micros)) ∷ []

-- All that is put into a line.
abbrev pub line_items : (ℕ → Tm) → ℕ → Place → LogLevel → List Item → List Item
line_items gmtime micros p level items =
    (time_items gmtime micros ++ head_items level p) ++ (items ++ c_str (some (10 ∷ [])) ∷ [])

abbrev pub IsPlace : Place → Type 0
IsPlace p = (magnitude p.pid < 2 ^ 64) × (magnitude p.tid < 2 ^ 64) × (magnitude p.line < 2 ^ 64)

All-append : (xs ys : List Item) → All IsItem xs → All IsItem ys → All IsItem (xs ++ ys)
All-append [] ys h k = k
All-append (x ∷ xs) ys h k = (h.0, All-append xs ys h.1 k)

room_all-append : (xs ys : List Item) → room_all (xs ++ ys) ≡ room_all xs + room_all ys
room_all-append [] ys = omega arith
room_all-append (x ∷ xs) ys = omega (arith, room_all-append xs ys)

length-level_color :
    (level : LogLevel) → (length (level_color level) ≡ 7) × (length (level_name level) ≡ 7)
length-level_color trace = (refl, refl)
length-level_color debug = (refl, refl)
length-level_color info = (refl, refl)
length-level_color warn = (refl, refl)
length-level_color error = (refl, refl)
length-level_color fatal = (refl, refl)

room-head_items :
    (level : LogLevel) (p : Place)
    → room_all (head_items level p) ≤ 155 + length p.filename + length p.func
unfolding head_items
room-head_items level p =
    let (c, n) = length-level_color level in omega (arith, c, n, length-filename_cut p.filename)

module _ (log_level level : LogLevel) (gmtime : ℕ → Tm) (micros : ℕ) (p : Place) (items : List Item)
    (cache : TimeText) (enabled : leb (level_number log_level) (level_number level) ≡ true)
    (right : IsRight gmtime cache) (later : 1000000 ≤ micros)
    (calendar : IsTm (gmtime (micros / 1000000))) (place : IsPlace p)
    (values : All IsItem items) where
  fine : All IsItem (line_items gmtime micros p level items)
  unfolding head_items
  fine =
      All-append (time_items gmtime micros ++ head_items level p)
        (items ++ c_str (some (10 ∷ [])) ∷ [])
        (
          tt,
          (
            tt,
            (
              tt,
              (
                tt,
                (
                  tt,
                  (
                    tt,
                    (
                      tt,
                      (
                        place.0,
                        (
                          tt,
                          (
                            place.1,
                            (
                              tt,
                              (tt, (tt, (tt, (place.2, (tt, (tt, (tt, (tt, (tt, (tt, tt)))))))))),
                            ),
                          ),
                        ),
                      ),
                    ),
                  ),
                ),
              ),
            ),
          ),
        )
        (All-append items (c_str (some (10 ∷ [])) ∷ []) values (tt, tt))

  log-put_all :
      (b : LogBuffer)
      → put_all (line_items gmtime micros p level items) (new_buffer small_buffer) ≡ some b
      → (cache' : TimeText) × (log log_level gmtime micros p level items cache
          ≡ some (some b.text, cache'))
        × IsRight gmtime cache'
  unfolding log logger finished
  log-put_all b e =
      let start = time_items gmtime micros ++ head_items level p in
      let new_line = c_str (some (10 ∷ [])) ∷ [] in
      let (b1, d1, e1) =
        >>=-eq-some (put_all start (new_buffer small_buffer)) (put_all (items ++ new_line))
          (sym (put_all-append start (items ++ new_line) (new_buffer small_buffer)) ∙ e) in
      let (b2, d2, d3) =
        >>=-eq-some (put_all items b1) (put_all new_line)
          (sym (put_all-append items new_line b1) ∙ e1) in
      let (cache', f, r) = format_time_lem gmtime micros cache right later calendar in
      (cache', rw (enabled, f, d1, d2, d3) refl, r)

  room :
      183 + length p.filename + length p.func + room_all items < 4096
      → room_all (line_items gmtime micros p level items) < 4096
  room r =
      let start = time_items gmtime micros ++ head_items level p in
      let rest = items ++ c_str (some (10 ∷ [])) ∷ [] in
      omega (
        arith,
        room_all-append start rest,
        room_all-append (time_items gmtime micros) (head_items level p),
        room_all-append items (c_str (some (10 ∷ [])) ∷ []),
        room-head_items level p,
        length-stamp (gmtime (micros / 1000000)) calendar,
        length-fraction micros,
      )

  -- A line that is not below the level of the log, and has room for the name of its file, the name of
  -- its function and its values (32 bytes for each number) behind the 183 bytes that the rest of a line
  -- wants, is passed to the output whole: the date and time, the microseconds, the level in its color,
  -- the process and the thread, the name of the file without its directories, the line and the
  -- function, then the values in order, and the end of the line. The time is from the second 1 on, in
  -- the years 1900 to 9999, and the numbers are of 64 bits.
  pub log_whole :
      183 + length p.filename + length p.func + room_all items < 4096
      → (t : List ℕ) × (base : List ℕ) × (body : List ℕ) × (cache' : TimeText) × (log log_level
            gmtime micros p level items cache
          ≡ some (some t, cache'))
        × IsBase p.filename base
        × Texts items body
        × (t
            ≡ join (stamp (gmtime (micros / 1000000)) ∷ fraction micros ∷ head_text level p base)
              ++ (body ++ 10 ∷ []))
        × IsRight gmtime cache'
  unfolding new_buffer head_items
  log_whole r =
      let start = time_items gmtime micros ++ head_items level p in
      let new_line = c_str (some (10 ∷ [])) ∷ [] in
      let (t, b, e, d, w) =
        put_all_whole (line_items gmtime micros p level items) (new_buffer small_buffer) fine
          (omega arith) (room r) in
      let (cache', f, k) = log-put_all b e in
      let (t1, t2, h1, h2, m) = Texts-append start (items ++ new_line) t d in
      let (body, t3, h3, h4, n) = Texts-append items new_line t2 h2 in
      (
        b.text,
        filename_cut p.filename,
        body,
        cache',
        f,
        filename_cut-IsBase p.filename,
        h3,
        w ∙ m ∙ rw (plain-Texts start t1 refl h1, n, plain-Texts new_line t3 refl h4) refl,
        k,
      )

  -- A line of any length, even one that does not fit: no operator fails, and what is passed to the
  -- output is shorter than 4096 bytes.
  pub log-IsBounded :
      (t : List ℕ) × (cache' : TimeText) × (log log_level gmtime micros p level items cache
        ≡ some (some t, cache'))
      × (length t < 4096)
      × IsRight gmtime cache'
  unfolding new_buffer
  log-IsBounded =
      let (b, e, l) =
        put_all-IsOpen (line_items gmtime micros p level items) (new_buffer small_buffer) fine
          (omega arith) in
      let (cache', f, k) = log-put_all b e in (b.text, cache', f, l, k)
