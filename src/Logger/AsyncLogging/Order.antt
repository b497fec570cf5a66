-- ===== src/Logger/AsyncLogging/Order.antt =====
-- The lines of all threads on their way to the file, whatever the order of the steps.
use talib.Prelude.{
  ℕ, ◌<◌, ◌≡◌, refl, ap, ◌∙◌, inl, inr, Bool, true, false, Option, none, some, List, [], ◌∷◌, ◌++◌,
  append-nil, append_assoc, arith, ltb, if◌then◌else◌, Bool-cases, length, All, length-append,
}
use talib.Logger.LogBuffer.{LogBuffer, avail, append, large_buffer}
use talib.Logger.AsyncLogging.{AsyncLogging, append_line, all_text, following}

abbrev pub text_of : Option LogBuffer → List ℕ
text_of none = []
text_of (some b) = b.text

-- Everything that has been logged: what the file was given, what is being written, what waits, and
-- the current buffer.
abbrev pub logged : AsyncLogging → List ℕ
logged a = a.output ++ (all_text a.to_write ++ (all_text a.buffers ++ text_of a.current))

-- A line that no buffer holds is dropped.
abbrev pub accepted : List ℕ → List ℕ
accepted line = if ltb (length line) large_buffer then line else []

abbrev pub IsLarge : LogBuffer → Type 0
IsLarge b = b.size ≡ large_buffer

abbrev pub IsFresh : LogBuffer → Type 0
IsFresh b = (b.size ≡ large_buffer) × (b.text ≡ [])

abbrev pub IsFree : Option LogBuffer → Type 0
IsFree none = Unit
IsFree (some b) = IsFresh b

abbrev pub is_null : Option LogBuffer → Bool
is_null none = true
is_null (some b) = false

-- What holds whenever the lock is free: the current buffer is there, and the next one is used up
-- only behind a full buffer. The thread waits with both backups, or it writes with the first one
-- given away, and the second only where it has two buffers to take back.
pub data IsValid : AsyncLogging → Type 0 where
  waiting :
      (c b1 b2 : LogBuffer) (n : Option LogBuffer) (bufs : List LogBuffer) (out : List ℕ)
      → IsLarge c
      → IsFree n
      → All IsLarge bufs
      → (is_null n ≡ true → 0 < length bufs)
      → IsFresh b1
      → IsFresh b2
      → IsValid (record {
        current = some c;
        next = n;
        buffers = bufs;
        backup1 = some b1;
        backup2 = some b2;
        to_write = [];
        output = out;
      })
  writing :
      (c w : LogBuffer) (n b2 : Option LogBuffer) (bufs ws : List LogBuffer) (out : List ℕ)
      → IsLarge c
      → IsFree n
      → All IsLarge bufs
      → (is_null n ≡ true → 0 < length bufs)
      → IsFree b2
      → All IsLarge (w ∷ ws)
      → (is_null b2 ≡ true → 0 < length ws)
      → IsValid (record {
        current = some c;
        next = n;
        buffers = bufs;
        backup1 = none;
        backup2 = b2;
        to_write = w ∷ ws;
        output = out;
      })

-- A step that fails nowhere and adds these bytes to what has been logged.
pub record Logs (bytes : List ℕ) (a a' : AsyncLogging) : Type 0 where
  pub valid : IsValid a'
  pub in_order : logged a' ≡ logged a ++ bytes

pub all_text-append : (u v : List LogBuffer) → all_text (u ++ v) ≡ all_text u ++ all_text v
unfolding all_text
all_text-append [] v = refl
all_text-append (b ∷ u) v = rw (all_text-append u v, append_assoc)

pub All-snoc :
    (v : List LogBuffer) (b : LogBuffer) → All IsLarge v → IsLarge b → All IsLarge (v ++ b ∷ [])
All-snoc [] b h k = (k, tt)
All-snoc (c ∷ v) b h k = (h.0, All-snoc v b h.1 k)

append-IsLarge : (line : List ℕ) (b : LogBuffer) → IsLarge b → IsLarge (append line b)
unfolding append
append-IsLarge line b h = ground arith

append_fits :
    (line : List ℕ) (b : LogBuffer)
    → IsLarge b
    → ltb (length line) (avail b) ≡ true
    → (append line b).text ≡ b.text ++ accepted line
unfolding append
append_fits line b h r =
    let e : ltb (length line) large_buffer ≡ true = ground arith in rw (r, e) refl

append-fresh : (line : List ℕ) (b : LogBuffer) → IsFresh b → (append line b).text ≡ accepted line
unfolding append
append-fresh line b h = ground (arith, h.0, h.1)

following-IsFresh : (n : Option LogBuffer) → IsFree n → IsFresh (following n)
following-IsFresh none h = (refl, refl)
following-IsFresh (some b) h = h

-- The same at the end of what has been logged.
at_end :
    (out ws bs s t : List ℕ) → out ++ (ws ++ (bs ++ (s ++ t))) ≡ (out ++ (ws ++ (bs ++ s))) ++ t
at_end out ws bs s t = simp append_assoc

module _ (line : List ℕ) (c : LogBuffer) (large : IsLarge c) (bufs : List LogBuffer)
    (out ws : List ℕ) where
  order_fits :
      ltb (length line) (avail c) ≡ true
      → out ++ (ws ++ (all_text bufs ++ (append line c).text))
        ≡ (out ++ (ws ++ (all_text bufs ++ c.text))) ++ accepted line
  order_fits r =
      ap (λ z. out ++ (ws ++ (all_text bufs ++ z))) (append_fits line c large r)
      ∙ at_end out ws (all_text bufs) c.text (accepted line)

  order_full :
      (n : Option LogBuffer)
      → IsFree n
      → out ++ (ws ++ (all_text (bufs ++ c ∷ []) ++ (append line (following n)).text))
        ≡ (out ++ (ws ++ (all_text bufs ++ c.text))) ++ accepted line
  unfolding all_text
  order_full n f =
      rw (all_text-append bufs (c ∷ []), append-fresh line (following n) (following-IsFresh n f))
        (simp (append-nil, append_assoc))

some_behind : (v : List LogBuffer) (b : LogBuffer) → 0 < length (v ++ b ∷ [])
some_behind v b = omega (arith, length-append v (b ∷ []))

-- A line is put behind what has been logged, whatever the writing thread is at.
pub append_line-Logs :
    (line : List ℕ) (a : AsyncLogging)
    → IsValid a
    → (a' : AsyncLogging) × (append_line line a ≡ some a') × Logs (accepted line) a a'
unfolding append_line
append_line-Logs line a (waiting c b1 b2 n bufs out l f h e f1 f2) =
    elim (Bool-cases (ltb (length line) (avail c))) [
      | inl room ↦ (
        _,
        rw room refl,
        record {
          valid = waiting (append line c) b1 b2 n bufs out (append-IsLarge line c l) f h e f1 f2;
          in_order = order_fits line c l bufs out (all_text []) room;
        },
      )
      | inr full ↦ (
        _,
        rw full refl,
        record {
          valid =
              waiting (append line (following n)) b1 b2 none (bufs ++ c ∷ []) out
                (append-IsLarge line (following n) (following-IsFresh n f).0) tt
                (All-snoc bufs c h l) (λ _. some_behind bufs c) f1 f2;
          in_order = order_full line c l bufs out (all_text []) n f;
        },
      )
    ]
append_line-Logs line a (writing c w n b2 bufs ws out l f h e f2 k e2) =
    elim (Bool-cases (ltb (length line) (avail c))) [
      | inl room ↦ (
        _,
        rw room refl,
        record {
          valid =
              writing (append line c) w n b2 bufs ws out (append-IsLarge line c l) f h e f2 k e2;
          in_order = order_fits line c l bufs out (all_text (w ∷ ws)) room;
        },
      )
      | inr full ↦ (
        _,
        rw full refl,
        record {
          valid =
              writing (append line (following n)) w none b2 (bufs ++ c ∷ []) ws out
                (append-IsLarge line (following n) (following-IsFresh n f).0) tt
                (All-snoc bufs c h l) (λ _. some_behind bufs c) f2 k e2;
          in_order = order_full line c l bufs out (all_text (w ∷ ws)) n f;
        },
      )
    ]
