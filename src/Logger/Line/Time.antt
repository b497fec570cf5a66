-- ===== src/Logger/Line/Time.antt =====
-- The time at the head of a line, which is formatted once for each second.
use talib.Prelude.{
  decimal, bytes, ℕ, suc, ◌+◌, ◌-◌, ◌/◌, ◌%◌, ◌≤◌, ◌<◌, ◌≡◌, refl, ◌⊎◌, inl, inr, true, some, List,
  [], ◌∷◌, ◌++◌, arith, ◌==◌, Bool-cases, length, replicate, length-append, length-replicate,
}
use talib.Prelude.{
  tens, length-decimal_below, fixed_digits, filled-fixed_digits, length-decimal_above, sym, ap, ◌∙◌,
}
use talib.Logger.LogStream.{c_str}
use talib.Logger.Line.{Tm, TimeText, padded, date_text, fmt, format_time}

pub length-padded : (fill k n : ℕ) → n < tens (suc k) → length (padded fill (suc k) n) ≡ suc k
unfolding padded
length-padded fill k n h = omega (
  arith,
  length-decimal_below k n h,
  length-append (replicate (suc k - length (decimal n)) fill) (decimal n),
  length-replicate (suc k - length (decimal n)) fill,
)

-- What `gmtime_r` gives for the years 1900 to 9999.
abbrev pub IsTm : Tm → Type 0
IsTm t =
    (t.year < 8100) × (t.mon < 12) × (t.mday ≤ 31) × (t.hour < 24) × (t.min < 60) × (t.sec ≤ 60)

joined :
    (a b c d e f : List ℕ)
    → length a ≡ 4
    → length b ≡ 2
    → length c ≡ 2
    → length d ≡ 2
    → length e ≡ 2
    → length f ≡ 2
    → length (a ++ (b'-' ∷ b) ++ (b'-' ∷ c) ++ (b' ' ∷ d) ++ (b':' ∷ e) ++ (b':' ∷ f)) ≡ 19
joined a b c d e f la lb lc ld le lf = simp (length-append, la, lb, lc, ld, le, lf)

pub length-date_text : (t : Tm) → IsTm t → length (date_text t) ≡ 19
unfolding date_text
length-date_text t (y, m, d, h, i, s) =
    joined (padded b' ' 4 (t.year + 1900)) (padded b'0' 2 (t.mon + 1)) (padded b'0' 2 t.mday)
      (padded b'0' 2 (t.hour + 8)) (padded b'0' 2 t.min) (padded b'0' 2 t.sec)
      (length-padded b' ' 3 (t.year + 1900) (omega arith))
      (length-padded b'0' 1 (t.mon + 1) (omega arith)) (length-padded b'0' 1 t.mday (omega arith))
      (length-padded b'0' 1 (t.hour + 8) (omega arith)) (length-padded b'0' 1 t.min (omega arith))
      (length-padded b'0' 1 t.sec (omega arith))

-- The date and time that a line shows: the calendar's, with 8 added to the hour.
abbrev pub stamp : Tm → List ℕ
stamp t =
    fixed_digits 4 (1900 + t.year)
    ++ (b'-' ∷ fixed_digits 2 (1 + t.mon))
    ++ (b'-' ∷ fixed_digits 2 t.mday)
    ++ (b' ' ∷ fixed_digits 2 (8 + t.hour))
    ++ (b':' ∷ fixed_digits 2 t.min)
    ++ (b':' ∷ fixed_digits 2 t.sec)

padded-fixed_digits : (k n : ℕ) → n < tens (suc k) → padded b'0' (suc k) n ≡ fixed_digits (suc k) n
unfolding padded
padded-fixed_digits k n h = filled-fixed_digits k n h

-- A year needs no filling.
padded_year : (n : ℕ) → 1000 ≤ n → n < 10000 → padded b' ' 4 n ≡ fixed_digits 4 n
unfolding padded
padded_year n l h =
    let full : 4 - length (decimal n) ≡ 0 = omega (arith, length-decimal_above 3 n (omega arith)) in
    ap (λ w. replicate w b' ' ++ decimal n) full
    ∙ ap (λ w. replicate w b'0' ++ decimal n) (sym full)
    ∙ filled-fixed_digits 3 n (omega arith)

six :
    {a b c d e f a' b' c' d' e' f' : List ℕ}
    → a ≡ a'
    → b ≡ b'
    → c ≡ c'
    → d ≡ d'
    → e ≡ e'
    → f ≡ f'
    → (a ++ (b'-' ∷ b) ++ (b'-' ∷ c) ++ (b' ' ∷ d) ++ (b':' ∷ e) ++ (b':' ∷ f))
      ≡ (a' ++ (b'-' ∷ b') ++ (b'-' ∷ c') ++ (b' ' ∷ d') ++ (b':' ∷ e') ++ (b':' ∷ f'))
six pa pb pc pd pe pf = rw (pa, pb, pc, pd, pe, pf) refl

date_text-stamp : (t : Tm) → IsTm t → date_text t ≡ stamp t
unfolding date_text
date_text-stamp t (y, m, d, h, i, s) =
    let year : t.year + 1900 ≡ 1900 + t.year = omega arith in
    let month : t.mon + 1 ≡ 1 + t.mon = omega arith in
    let hour : t.hour + 8 ≡ 8 + t.hour = omega arith in
    six (padded_year (t.year + 1900) (omega arith) (omega arith) ∙ ap (fixed_digits 4) year)
      (padded-fixed_digits 1 (t.mon + 1) (omega arith) ∙ ap (fixed_digits 2) month)
      (padded-fixed_digits 1 t.mday (omega arith))
      (padded-fixed_digits 1 (t.hour + 8) (omega arith) ∙ ap (fixed_digits 2) hour)
      (padded-fixed_digits 1 t.min (omega arith)) (padded-fixed_digits 1 t.sec (omega arith))

-- The text of the thread is that of its second, unless it has not formatted any.
abbrev pub IsRight : (ℕ → Tm) → TimeText → Type 0
IsRight gmtime cache = (cache.last_second ≡ 0) ⊎ (cache.time ≡ stamp (gmtime cache.last_second))

-- "." and six digits.
abbrev pub fraction : ℕ → List ℕ
fraction micros = b'.' ∷ (fixed_digits 6 (micros % 1000000) ++ bytes " ")

fmt-fraction :
    (micros : ℕ)
    → (padded b'0' 6 (micros % 1000000) ≡ fixed_digits 6 (micros % 1000000))
      × (fmt (fraction micros) ≡ some (fraction micros))
      × (length (fraction micros) ≡ 8)
unfolding fmt
fmt-fraction micros =
    let d = padded-fixed_digits 5 (micros % 1000000) (omega arith) in
    let l = length-padded b'0' 5 (micros % 1000000) (omega arith) in
    let e : length (fraction micros) ≡ 8 =
      omega
        (arith, l, ap length d, length-append (fixed_digits 6 (micros % 1000000)) (bytes " ")) in
    (d, rw e refl, e)

pub length-stamp : (t : Tm) → IsTm t → length (stamp t) ≡ 19
length-stamp t v = ap length (sym (date_text-stamp t v)) ∙ length-date_text t v

pub length-fraction : (micros : ℕ) → length (fraction micros) ≡ 8
length-fraction micros = (fmt-fraction micros).2

-- From the second 1 on, in the years 1900 to 9999, whatever second the thread has formatted last, the
-- time is written as if it were formatted anew: the calendar's date and time in fixed digits, with 8
-- added to its hour and nothing carried into the day, and six digits of microseconds. No assertion
-- fails, and the text that is kept is right for the next line.
pub format_time_lem :
    (gmtime : ℕ → Tm) (micros : ℕ) (cache : TimeText)
    → IsRight gmtime cache
    → 1000000 ≤ micros
    → IsTm (gmtime (micros / 1000000))
    → (cache' : TimeText) × (format_time gmtime micros cache
        ≡ some (
          c_str (some (stamp (gmtime (micros / 1000000)))) ∷ c_str (some (fraction micros)) ∷ [],
          cache',
        ))
      × IsRight gmtime cache'
unfolding format_time
format_time_lem gmtime micros cache r l v =
    let (p, f, e) = fmt-fraction micros in
    let t = date_text-stamp (gmtime (micros / 1000000)) v in
    let nineteen : length (stamp (gmtime (micros / 1000000))) ≡ 19 =
      length-stamp (gmtime (micros / 1000000)) v in
    elim (Bool-cases (micros / 1000000 == cache.last_second)) [
      | inl same ↦
          let kept : cache.time ≡ stamp (gmtime (micros / 1000000)) = current same r in
          (cache, rw (same, p, f, e, kept) refl, r)
      | inr new ↦ (
        record { time = stamp (gmtime (micros / 1000000)); last_second = micros / 1000000 },
        rw (new, p, t, nineteen, f, e) refl,
        inr refl,
      )
    ]
  where
    current :
        (micros / 1000000 == cache.last_second) ≡ true
        → IsRight gmtime cache
        → cache.time ≡ stamp (gmtime (micros / 1000000))
    current same (inl z) = absurd (ground arith)
    current same (inr t) = let s : micros / 1000000 ≡ cache.last_second = ground arith in rw s t
