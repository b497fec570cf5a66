-- ===== src/Redis/Connect/Chunks.antt =====
-- A reply that is read in parts is the reply read at once.
use talib.Prelude.{
  ℕ, ◌+◌, ◌-◌, ◌≤◌, ◌<◌, ◌≡◌, refl, sym, ap, ◌∙◌, inl, inr, Bool, true, false, some, List, [], ◌∷◌,
  ◌++◌, append-nil, append_assoc, arith, ltb, ◌==◌, Bool-cases, length, take, All, length-append,
  take_all,
}
use talib.Redis.Command.{Code, Command, parse}
use talib.Redis.Command.Whole.{IsWhole}
use talib.Redis.Connect.{Received, arrived, closed, waits, fails, socket_timeout, receive}

-- The bytes of the parts, and how long the time-outs among them last.
abbrev pub text_of : List Received → List ℕ
text_of [] = []
text_of (arrived chunk ∷ answers) = chunk ++ text_of answers
text_of (closed ∷ answers) = text_of answers
text_of (waits ∷ answers) = text_of answers
text_of (fails ∷ answers) = text_of answers

abbrev pub wait_of : List Received → ℕ
wait_of [] = 0
wait_of (arrived chunk ∷ answers) = wait_of answers
wait_of (closed ∷ answers) = wait_of answers
wait_of (waits ∷ answers) = socket_timeout + wait_of answers
wait_of (fails ∷ answers) = wait_of answers

-- No part is empty, and none is an error.
abbrev pub is_part : Received → Bool
is_part (arrived chunk) = ltb 0 (length chunk)
is_part waits = true
is_part closed = false
is_part fails = false

no_bytes : (s : List ℕ) → length s ≡ 0 → s ≡ []
no_bytes [] h = refl
no_bytes (x ∷ s) h = absurd (omega arith)

-- However a reply is cut into parts, and with time-outs between them that stay below the limit, what
-- comes of it is what the parser makes of the whole.
pub receive-IsWhole :
    (memsz limit : ℕ) (text : List ℕ) (c : Command) (code : Code) (c' : Command)
    → IsWhole text c code c'
    → length text ≤ memsz
    → (answers : List Received) (delay : ℕ) (read : List ℕ) → All (λ a. is_part a ≡ true) answers
    → text ≡ read ++ text_of answers
    → length read < length text
    → delay + wait_of answers ≤ limit
    → receive memsz limit answers delay read c ≡ some (code, c')
unfolding receive
receive-IsWhole memsz limit text c code c' w m [] delay read a e s l =
    absurd (omega (arith, ap length e, length-append read []))
receive-IsWhole memsz limit text c code c' w m (closed ∷ answers) delay read a e s l = cc
receive-IsWhole memsz limit text c code c' w m (fails ∷ answers) delay read a e s l = cc
receive-IsWhole memsz limit text c code c' w m (waits ∷ answers) delay read a e s l =
    let room : ltb (length read) memsz ≡ true = ground arith in
    let in_time : ltb limit (delay + socket_timeout) ≡ false = ground arith in
    rw (room, in_time)
      (receive-IsWhole memsz limit text c code c' w m answers (delay + socket_timeout) read a.1 e s
        (omega arith))
receive-IsWhole memsz limit text c code c' w m (arrived chunk ∷ answers) delay read a e s l =
    let room : ltb (length read) memsz ≡ true = ground arith in
    let total : length text ≡ length read + (length chunk + length (text_of answers)) = omega (
      arith,
      ap length e,
      length-append read (chunk ++ text_of answers),
      length-append chunk (text_of answers),
    ) in
    let fits : take (memsz - length read) chunk ≡ chunk =
      take_all (memsz - length read) chunk (omega arith) in
    let joined : text ≡ (read ++ chunk) ++ text_of answers =
      e ∙ sym (append_assoc read chunk (text_of answers)) in
    elim (Bool-cases (length (text_of answers) == 0)) [
      | inl z ↦
          let whole : text ≡ read ++ chunk =
            joined
            ∙ ap (λ y. (read ++ chunk) ++ y) (no_bytes (text_of answers) (ground arith))
            ∙ append-nil (read ++ chunk) in
          let result : parse (read ++ chunk) c ≡ some (code, c') =
            ap (λ y. parse y c) (sym whole) ∙ w.parsed in
          rw (room, fits, result) (rw w.final refl)
      | inr z ↦
          rw (room, fits, w.waiting (read ++ chunk) (text_of answers) joined (ground arith))
            (receive-IsWhole memsz limit text c code c' w m answers 0 (read ++ chunk) a.1 joined
              (ground (arith, total, length-append read chunk)) (omega arith))
    ]
