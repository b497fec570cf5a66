-- ===== src/Logger/AsyncLogging/Thread.antt =====
-- The rounds of the writing thread, between the lines of the others.
use talib.Prelude.{
  ℕ, suc, ◌<◌, ◌≡◌, refl, sym, ap, ◌∙◌, true, Option, none, some, List, [], ◌∷◌, ◌++◌, append-nil,
  append_assoc, arith, ltb, if◌then◌else◌, ◌>>=◌, length, All, length-append,
}
use talib.Logger.LogBuffer.{LogBuffer, reset, new_buffer, large_buffer}
use talib.Logger.AsyncLogging.{
  AsyncLogging, is_empty, new_logging, append_line, collect, write_out, pop_back, shrink, all_text,
  refill,
}
use talib.Logger.AsyncLogging.Order.{
  IsValid, waiting, writing, Logs, logged, accepted, IsLarge, IsFresh, IsFree, is_null,
  all_text-append, All-snoc, append_line-Logs,
}

-- The part of the round that the thread comes to next.
pub thread_step : AsyncLogging → Option AsyncLogging
thread_step a = if is_empty a.to_write then collect a else write_out a

same_text :
    (out : List ℕ) (bufs : List LogBuffer) (c b1 : LogBuffer)
    → b1.text ≡ []
    → out ++ (all_text (bufs ++ c ∷ []) ++ b1.text) ≡ (out ++ (all_text bufs ++ c.text)) ++ []
unfolding all_text
same_text out bufs c b1 e = rw (all_text-append bufs (c ∷ []), e) (simp (append-nil, append_assoc))

collect-Logs :
    (c b1 b2 : LogBuffer) (n : Option LogBuffer) (bufs : List LogBuffer) (out : List ℕ)
    → IsLarge c
    → IsFree n
    → All IsLarge bufs
    → (is_null n ≡ true → 0 < length bufs)
    → IsFresh b1
    → IsFresh b2
    → (a' : AsyncLogging) × (collect (record {
      current = some c;
      next = n;
      buffers = bufs;
      backup1 = some b1;
      backup2 = some b2;
      to_write = [];
      output = out;
    })
        ≡ some a')
      × IsValid a'
      × (logged a' ≡ (out ++ (all_text bufs ++ c.text)) ++ [])
unfolding collect all_text
collect-Logs c b1 b2 none [] out l f h e f1 f2 = absurd (omega (arith, e refl))
collect-Logs c b1 b2 none (w ∷ ws) out l f h e f1 f2 = (
  _,
  refl,
  writing b1 w (some b2) none [] (ws ++ c ∷ []) out f1.0 f2 tt (λ z. cc) tt
      (h.0, All-snoc ws c h.1 l) (λ _. omega (arith, length-append ws (c ∷ []))),
  same_text out (w ∷ ws) c b1 f1.1,
)
collect-Logs c b1 b2 (some n) [] out l f h e f1 f2 = (
  _,
  refl,
  writing b1 c (some n) (some b2) [] [] out f1.0 f tt (λ z. cc) f2 (l, tt) (λ z. cc),
  same_text out [] c b1 f1.1,
)
collect-Logs c b1 b2 (some n) (w ∷ ws) out l f h e f1 f2 = (
  _,
  refl,
  writing b1 w (some n) (some b2) [] (ws ++ c ∷ []) out f1.0 f tt (λ z. cc) f2
      (h.0, All-snoc ws c h.1 l) (λ z. cc),
  same_text out (w ∷ ws) c b1 f1.1,
)

-- The last of the buffers just written, emptied, is a fresh one.
reset-IsFresh : (b : LogBuffer) → IsLarge b → IsFresh (reset b)
unfolding reset
reset-IsFresh b h = (h, refl)

written_text : (out ws s : List ℕ) → (out ++ ws) ++ s ≡ (out ++ (ws ++ s)) ++ []
written_text out ws s = simp (append-nil, append_assoc)

write_out-Logs :
    (c w : LogBuffer) (n b2 : Option LogBuffer) (bufs ws : List LogBuffer) (out : List ℕ)
    → IsLarge c
    → IsFree n
    → All IsLarge bufs
    → (is_null n ≡ true → 0 < length bufs)
    → IsFree b2
    → All IsLarge (w ∷ ws)
    → (is_null b2 ≡ true → 0 < length ws)
    → (a' : AsyncLogging) × (write_out (record {
      current = some c;
      next = n;
      buffers = bufs;
      backup1 = none;
      backup2 = b2;
      to_write = w ∷ ws;
      output = out;
    })
        ≡ some a')
      × IsValid a'
      × (logged a' ≡ (out ++ (all_text (w ∷ ws) ++ (all_text bufs ++ c.text))) ++ [])
unfolding write_out shrink refill pop_back all_text
write_out-Logs c w n none bufs [] out l f h e f2 k e2 = absurd (omega (arith, e2 refl))
write_out-Logs c w n (some b2) bufs [] out l f h e f2 k e2 = (
  _,
  refl,
  waiting c (reset w) b2 n bufs (out ++ all_text (w ∷ [])) l f h e (reset-IsFresh w k.0) f2,
  written_text out (all_text (w ∷ [])) (all_text bufs ++ c.text),
)
write_out-Logs c w n none bufs (v ∷ []) out l f h e f2 k e2 = (
  _,
  refl,
  waiting c (reset v) (reset w) n bufs (out ++ all_text (w ∷ v ∷ [])) l f h e
      (reset-IsFresh v k.1.0) (reset-IsFresh w k.0),
  written_text out (all_text (w ∷ v ∷ [])) (all_text bufs ++ c.text),
)
write_out-Logs c w n (some b2) bufs (v ∷ []) out l f h e f2 k e2 = (
  _,
  refl,
  waiting c (reset v) b2 n bufs (out ++ all_text (w ∷ v ∷ [])) l f h e (reset-IsFresh v k.1.0) f2,
  written_text out (all_text (w ∷ v ∷ [])) (all_text bufs ++ c.text),
)
write_out-Logs c w n none bufs (v ∷ u ∷ ws) out l f h e f2 k e2 =
    let more : ltb 2 (suc (suc (suc (length ws)))) ≡ true = ground arith in
    (
      _,
      rw more refl,
      waiting c (reset v) (reset w) n bufs (out ++ all_text (w ∷ v ∷ u ∷ ws)) l f h e
          (reset-IsFresh v k.1.0) (reset-IsFresh w k.0),
      written_text out (all_text (w ∷ v ∷ u ∷ ws)) (all_text bufs ++ c.text),
    )
write_out-Logs c w n (some b2) bufs (v ∷ u ∷ ws) out l f h e f2 k e2 =
    let more : ltb 2 (suc (suc (suc (length ws)))) ≡ true = ground arith in
    (
      _,
      rw more refl,
      waiting c (reset v) b2 n bufs (out ++ all_text (w ∷ v ∷ u ∷ ws)) l f h e
          (reset-IsFresh v k.1.0) f2,
      written_text out (all_text (w ∷ v ∷ u ∷ ws)) (all_text bufs ++ c.text),
    )

pub thread_step-Logs :
    (a : AsyncLogging) → IsValid a → (a' : AsyncLogging) × (thread_step a ≡ some a') × Logs [] a a'
unfolding thread_step all_text
thread_step-Logs a (waiting c b1 b2 n bufs out l f h e f1 f2) =
    let (a', d, v, o) = collect-Logs c b1 b2 n bufs out l f h e f1 f2 in
    (a', d, record { valid = v; in_order = o })
thread_step-Logs a (writing c w n b2 bufs ws out l f h e f2 k e2) =
    let (a', d, v, o) = write_out-Logs c w n b2 bufs ws out l f h e f2 k e2 in
    (a', d, record { valid = v; in_order = o })

-- What happens, in the order of the lock: a thread logs a line, or the writing thread goes on.
pub data Step : Type 0 where
  logs : List ℕ → Step
  goes_on : Step

pub step : Step → AsyncLogging → Option AsyncLogging
unfolding thread_step
step (logs line) a = append_line line a
step goes_on a = thread_step a

pub run : List Step → AsyncLogging → Option AsyncLogging
run [] a = some a
run (s ∷ ss) a = do a' ← step s a; run ss a'

-- The lines of a run, less those that no buffer holds.
abbrev pub lines : List Step → List ℕ
lines [] = []
lines (logs line ∷ ss) = accepted line ++ lines ss
lines (goes_on ∷ ss) = lines ss

-- Whatever the threads log, and however the rounds of the writing thread fall between the lines, no
-- null buffer is used and no assertion fails, and what the file was given, followed by what waits in
-- the buffers, is every line in order, less the lines that are as long as a whole buffer.
pub run-Logs :
    (ss : List Step) (a : AsyncLogging)
    → IsValid a
    → (a' : AsyncLogging) × (run ss a ≡ some a') × Logs (lines ss) a a'
unfolding run step
run-Logs [] a v = (a, refl, record { valid = v; in_order = sym (append-nil (logged a)) })
run-Logs (logs line ∷ ss) a v =
    let (b, d, l) = append_line-Logs line a v in
    let (a', e, m) = run-Logs ss b l.valid in
    (
      a',
      rw (d, run) e,
      record {
        valid = m.valid;
        in_order =
            m.in_order
            ∙ ap (λ z. z ++ lines ss) l.in_order
            ∙ append_assoc (logged a) (accepted line) (lines ss);
      },
    )
run-Logs (goes_on ∷ ss) a v =
    let (b, d, l) = thread_step-Logs a v in
    let (a', e, m) = run-Logs ss b l.valid in
    (
      a',
      rw (d, run) e,
      record {
        valid = m.valid;
        in_order = m.in_order ∙ ap (λ z. z ++ lines ss) (l.in_order ∙ append-nil (logged a));
      },
    )

pub new_logging-IsValid : IsValid new_logging
unfolding new_logging new_buffer
new_logging-IsValid =
    waiting (new_buffer large_buffer) (new_buffer large_buffer) (new_buffer large_buffer)
      (some (new_buffer large_buffer)) [] [] refl (refl, refl) tt (λ z. cc) (refl, refl)
      (refl, refl)
