-- ===== src/Redis/Socket/Moves.antt =====
-- The loops end, and move a prefix of the bytes in order.
use talib.Prelude.{
  ℕ, suc, ◌+◌, ◌-◌, ◌*◌, ◌≤◌, ◌<◌, ◌≡◌, refl, sym, ap, ◌∙◌, inl, inr, Bool, true, Option, some,
  List, [], ◌∷◌, ◌++◌, append_assoc, arith, ltb, if◌then◌else◌, Bool-cases, length, take, drop, All,
  length-drop, take-append-drop, append-nil,
}
use talib.Redis.Socket.{
  Answer, moved, closed, waits, fails, Outcome, completed, timeout, neterr, write, too_slow,
  next_times,
}

-- Every answer that moves bytes moves some.
abbrev pub is_some : Answer → Bool
is_some (moved num) = ltb 0 num
is_some closed = true
is_some waits = true
is_some fails = true

-- The outcome of a loop that had these bytes to move: what was moved is a prefix of them, and all of
-- them if the loop was completed.
pub record Ends (o : Option (Outcome × List ℕ)) (bytes : List ℕ) : Type 0 where
  pub outcome : Outcome
  pub sent : List ℕ
  pub left : List ℕ
  pub ended : o ≡ some (outcome, sent)
  pub prefix : bytes ≡ sent ++ left
  pub all : outcome ≡ completed → left ≡ []

taken_prefix : (n : ℕ) (sent rest : List ℕ) → sent ++ rest ≡ (sent ++ take n rest) ++ drop n rest
taken_prefix n sent rest =
    ap (λ z. sent ++ z) (sym (take-append-drop n rest))
    ∙ sym (append_assoc sent (take n rest) (drop n rest))

shorter : (n c : ℕ) (rest : List ℕ) → 0 < n → suc (length (drop n (c ∷ rest))) ≤ length (c ∷ rest)
shorter n c rest h = omega (arith, length-drop n (c ∷ rest))

-- A step that moves nothing.
waiting :
    (rest sent : List ℕ) (times : ℕ) (later : Option (Outcome × List ℕ))
    → (times + 1 ≤ 100 → Ends later (sent ++ rest))
    → Ends (if ltb 100 (times + 1) then some (timeout, sent) else later) (sent ++ rest)
waiting rest sent times later f = elim (Bool-cases (ltb 100 (times + 1))) [
  | inl e ↦ rw e (record {
    outcome = timeout;
    sent = sent;
    left = rest;
    ended = refl;
    prefix = refl;
    all = λ k. cc;
  })
  | inr e ↦ rw e (f (ground arith))
]

-- Given answers enough, `write` returns: what the kernel has taken is a prefix of the bytes in order,
-- and the whole of them when it returns their number. 101 answers for each byte, and 101 more, are enough.
pub write-Ends :
    (answers : List Answer) (times : ℕ) (rest sent : List ℕ)
    → All (λ a. is_some a ≡ true) answers
    → times ≤ 100
    → 101 * length rest + (101 - times) ≤ length answers
    → Ends (write times answers rest sent) (sent ++ rest)
unfolding write
write-Ends [] times [] sent a t h = absurd (omega arith)
write-Ends [] times (c ∷ rest) sent a t h = absurd (omega arith)
write-Ends (x ∷ answers) times [] sent a t h = record {
  outcome = completed;
  sent = sent;
  left = [];
  ended = refl;
  prefix = refl;
  all = λ e. refl;
}
write-Ends (moved num ∷ answers) times (c ∷ rest) sent a t h =
    elim (Bool-cases (too_slow num times)) [
      | inl e ↦ rw e (record {
        outcome = timeout;
        sent = sent ++ take num (c ∷ rest);
        left = drop num (c ∷ rest);
        ended = refl;
        prefix = taken_prefix num sent (c ∷ rest);
        all = λ k. cc;
      })
      | inr e ↦
          let some_moved : 0 < num = ground (arith, a.0) in
          let fewer = shorter num c rest some_moved in
          let few : next_times num times ≤ 100 = ground arith in
          let enough : 101 * length (drop num (c ∷ rest)) + (101 - next_times num times)
              ≤ length answers =
            ground (arith, fewer) in
          let r =
            write-Ends answers (next_times num times) (drop num (c ∷ rest))
              (sent ++ take num (c ∷ rest)) a.1 few enough in
          rw e (record {
            outcome = r.outcome;
            sent = r.sent;
            left = r.left;
            ended = r.ended;
            prefix = taken_prefix num sent (c ∷ rest) ∙ r.prefix;
            all = r.all;
          })
    ]
write-Ends (closed ∷ answers) times (c ∷ rest) sent a t h =
    waiting (c ∷ rest) sent times (write (times + 1) answers (c ∷ rest) sent)
      (λ k. write-Ends answers (times + 1) (c ∷ rest) sent a.1 k (omega arith))
write-Ends (waits ∷ answers) times (c ∷ rest) sent a t h =
    waiting (c ∷ rest) sent times (write (times + 1) answers (c ∷ rest) sent)
      (λ k. write-Ends answers (times + 1) (c ∷ rest) sent a.1 k (omega arith))
write-Ends (fails ∷ answers) times (c ∷ rest) sent a t h = record {
  outcome = neterr;
  sent = sent;
  left = c ∷ rest;
  ended = refl;
  prefix = refl;
  all = λ e. cc;
}

-- What a completed `write` has sent is all of it.
pub write-completed :
    (answers : List Answer) (times : ℕ) (rest sent out : List ℕ)
    → write times answers rest sent ≡ some (completed, out)
    → out ≡ sent ++ rest
unfolding write
write-completed [] times [] sent out h = ground (arith, h, append-nil sent)
write-completed [] times (c ∷ rest) sent out h = cc
write-completed (x ∷ answers) times [] sent out h = ground (arith, h, append-nil sent)
write-completed (moved num ∷ answers) times (c ∷ rest) sent out h =
    elim (Bool-cases (too_slow num times)) [
      | inl e ↦ ground (arith, h)
      | inr e ↦
          write-completed answers (next_times num times) (drop num (c ∷ rest))
            (sent ++ take num (c ∷ rest)) out (ground (arith, h))
          ∙ sym (taken_prefix num sent (c ∷ rest))
    ]
write-completed (closed ∷ answers) times (c ∷ rest) sent out h =
    elim (Bool-cases (ltb 100 (times + 1))) [
      | inl e ↦ ground (arith, h)
      | inr e ↦ write-completed answers (times + 1) (c ∷ rest) sent out (ground (arith, h))
    ]
write-completed (waits ∷ answers) times (c ∷ rest) sent out h =
    elim (Bool-cases (ltb 100 (times + 1))) [
      | inl e ↦ ground (arith, h)
      | inr e ↦ write-completed answers (times + 1) (c ∷ rest) sent out (ground (arith, h))
    ]
write-completed (fails ∷ answers) times (c ∷ rest) sent out h = cc
