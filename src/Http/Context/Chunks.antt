-- ===== src/Http/Context/Chunks.antt =====
-- A request that arrives in pieces is parsed as if it had arrived at once.
use talib.Prelude.{
  ℕ, zero, suc, ◌+◌, ◌≤◌, ◌≡◌, refl, sym, ap, ◌∙◌, subst, ◌⊎◌, inl, inr, Bool, true, false, some,
  List, ◌++◌, arith, Bool-cases, Option-cases, length, take, drop, take-append_le, drop-append_le,
}
use talib.Buffer.{find_crlf_in}
use talib.Buffer.Search.{find_crlf_in_bound, find_crlf_in-append}
use talib.Http.Context.{
  HttpContext, ParseState, expect_request_line, expect_headers, expect_body, got_all, Parse,
  header_line, done,
}
use native.Mathlib.Nat.{suc-add}
use talib.Http.Context.Bytes.{
  line_effect-IsReading, IsReading, line_effect, after_line, bytes_round, parse_bytes,
  bytes_round_wait, bytes_round_line, bytes_round_abort, parse_bytes_abort, parse_bytes_more,
  parse_bytes_stop, parse_bytes-zero,
}

-- The parser has accepted what came so far, and waits for the end of a line.
pub record IsWaiting (p : Parse (List ℕ)) : Type 0 where
  pub accepted : p.ok ≡ true
  pub unfinished : IsReading p.context.state

line_effect_stop :
    (t : ℕ) (c : HttpContext) (s : ParseState) (line : List ℕ) (e : Bool × Bool × HttpContext)
    → line_effect t s c line ≡ some e
    → e.1 ≡ false
    → e.0 ≡ true
    → ¬ IsReading e.2.state
unfolding line_effect header_line
line_effect_stop t c expect_request_line line e f m o r = ground arith
line_effect_stop t c expect_headers line e f m o r = ground arith
line_effect_stop t c expect_body line e f m o r = cc
line_effect_stop t c got_all line e f m o r = cc

-- What a result says of its first round.
module _ (t : ℕ) (c : HttpContext) (xs : List ℕ) where
  parse_bytes_first :
      (f : ℕ) (p : Parse (List ℕ))
      → parse_bytes (suc f) t c xs ≡ done p
      → (r : Parse (List ℕ)) × (bytes_round t c xs ≡ some r)
        × (((r.has_more ≡ true) × (parse_bytes f t r.context r.rest ≡ done p))
            ⊎ ((r.has_more ≡ false) × (r ≡ p)))
  parse_bytes_first f p h = elim (Option-cases (bytes_round t c xs)) [
    | inl e ↦ absurd (cc (h, parse_bytes_abort t c xs f e))
    | inr (r, e) ↦ elim (Bool-cases r.has_more) [
      | inl m ↦ (r, e, inl (m, sym (parse_bytes_more t c xs f r e m) ∙ h))
      | inr m ↦ (r, e, inr (m, cc (parse_bytes_stop t c xs f r e m)))
    ]
  ]

-- More fuel does not change a result.
parse_bytes_mono :
    (f g t : ℕ) (c : HttpContext) (xs : List ℕ) (p : Parse (List ℕ))
    → f ≤ g
    → parse_bytes f t c xs ≡ done p
    → parse_bytes g t c xs ≡ done p
parse_bytes_mono zero g t c xs p l h = absurd (cc (parse_bytes-zero t c xs))
parse_bytes_mono (suc f) zero t c xs p l h = absurd (omega arith)
parse_bytes_mono (suc f) (suc g) t c xs p l h =
    let (r, e, way) = parse_bytes_first t c xs f p h in
    elim way [
      | inl (m, k) ↦
          parse_bytes_more t c xs g r e m
          ∙ parse_bytes_mono f g t r.context r.rest p (omega arith) k
      | inr (m, k) ↦ parse_bytes_stop t c xs g r e m ∙ ap done k
    ]

-- The round on the longer text, where the shorter one has a whole line.
longer_round :
    (t : ℕ) (c : HttpContext) (xs ys : List ℕ) (n : ℕ) (e : Bool × Bool × HttpContext)
    → find_crlf_in xs ≡ some n
    → line_effect t c.state c (take n xs) ≡ some e
    → bytes_round t c (xs ++ ys) ≡ some (after_line e (xs ++ ys) (drop (n + 2) xs ++ ys))
longer_round t c xs ys n e p q =
    let b : n + 2 ≤ length xs = find_crlf_in_bound xs n p in
    bytes_round_line t c (xs ++ ys) n e (find_crlf_in-append xs ys n p)
      (rw (take-append_le n xs ys (omega arith)) q)
    ∙ ap (λ z. some (after_line e (xs ++ ys) z)) (drop-append_le (n + 2) xs ys b)

-- The two ways in which the parser on the shorter text goes on from its first round.
data FirstRound (t : ℕ) (c : HttpContext) (xs : List ℕ) (r : Parse (List ℕ)) : Type 0 where
  waits : r.has_more ≡ false → r.context ≡ c → r.rest ≡ xs → FirstRound t c xs r
  takes :
      r.has_more ≡ true
      → (ys : List ℕ → Parse (List ℕ)) → ((zs : List ℕ) → bytes_round t c (xs ++ zs) ≡ some (ys zs))
      → ((zs : List ℕ) → (ys zs).has_more ≡ true)
      → ((zs : List ℕ) → (ys zs).context ≡ r.context)
      → ((zs : List ℕ) → (ys zs).rest ≡ r.rest ++ zs)
      → IsReading r.context.state
      → FirstRound t c xs r
  ends : r.has_more ≡ false → ¬ IsWaiting r → FirstRound t c xs r

line_round :
    (t : ℕ) (c : HttpContext) (xs : List ℕ) (n : ℕ) (e : Bool × Bool × HttpContext)
    → IsReading c.state
    → find_crlf_in xs ≡ some n
    → line_effect t c.state c (take n xs) ≡ some e
    → FirstRound t c xs (after_line e xs (drop (n + 2) xs))
line_round t c xs n (ok, false, c') i p q =
    ends refl
      (λ w. line_effect_stop t c c.state (take n xs) (ok, false, c') q refl w.accepted w.unfinished)
line_round t c xs n (ok, true, c') i p q =
    let (o, i') = line_effect-IsReading t c c.state (take n xs) (ok, true, c') refl i q refl in
    takes refl (λ zs. after_line (ok, true, c') (xs ++ zs) (drop (n + 2) xs ++ zs))
      (λ zs. longer_round t c xs zs n (ok, true, c') p q) (λ zs. refl) (λ zs. refl) (λ zs. rw o) i'

first_round :
    (t : ℕ) (c : HttpContext) (xs : List ℕ) (r : Parse (List ℕ))
    → IsReading c.state
    → bytes_round t c xs ≡ some r
    → FirstRound t c xs r
first_round t c xs r i e = elim (Option-cases (find_crlf_in xs)) [
  | inl p ↦
      let h : some (record { ok = true; has_more = false; context = c; rest = xs }) ≡ some r =
        sym (bytes_round_wait t c xs p) ∙ e in
      waits (cc h) (cc h) (cc h)
  | inr (n, p) ↦ elim (Option-cases (line_effect t c.state c (take n xs))) [
    | inl q ↦ absurd (cc (e, bytes_round_abort t c xs n p q))
    | inr (eff, q) ↦
        let s : after_line eff xs (drop (n + 2) xs) ≡ r =
          cc (e, bytes_round_line t c xs n eff p q) in
        subst (FirstRound t c xs) s (line_round t c xs n eff i p q)
  ]
]

-- If the parser waits after the first piece, then feeding it the second gives what the two pieces
-- together give from the start: the same result, context and bytes left. The fuel of the run on
-- the whole is that of the two runs.
pub parse_bytes_chunks :
    (f g t : ℕ) (c : HttpContext) (xs ys : List ℕ) (p q : Parse (List ℕ))
    → IsReading c.state
    → parse_bytes f t c xs ≡ done p
    → IsWaiting p
    → parse_bytes g t p.context (p.rest ++ ys) ≡ done q
    → parse_bytes (f + g) t c (xs ++ ys) ≡ done q
parse_bytes_chunks zero g t c xs ys p q i h w k = absurd (cc (h, parse_bytes-zero t c xs))
parse_bytes_chunks (suc f) g t c xs ys p q i h w k =
    let (r, e, way) = parse_bytes_first t c xs f p h in
    rw suc-add (
      go r way (first_round t c xs r i e)
        (λ i' h'. parse_bytes_chunks f g t r.context r.rest ys p q i' h' w k))
  where
    go :
        (r : Parse (List ℕ))
        → ((r.has_more ≡ true) × (parse_bytes f t r.context r.rest ≡ done p))
          ⊎ ((r.has_more ≡ false) × (r ≡ p))
        → FirstRound t c xs r
        → (IsReading r.context.state
            → parse_bytes f t r.context r.rest ≡ done p
            → parse_bytes (f + g) t r.context (r.rest ++ ys) ≡ done q)
        → parse_bytes (suc (f + g)) t c (xs ++ ys) ≡ done q
    go r (inl (m, _)) (waits m' a b) rec = absurd (cc (m, m'))
    go r (inr (m, s)) (waits m' a b) rec =
        parse_bytes_mono g (suc (f + g)) t c (xs ++ ys) q (omega arith)
          (rw (← a, ← b) (subst (λ z. parse_bytes g t z.context (z.rest ++ ys) ≡ done q) (sym s) k))
    go r (inl (m, d)) (takes m' z e more a b i') rec =
        parse_bytes_more t c (xs ++ ys) (f + g) (z ys) (e ys) (more ys) ∙ rw (a ys, b ys) (rec i' d)
    go r (inr (m, s)) (takes m' z e more a b i') rec = absurd (cc (m, m'))
    go r (inl (m, _)) (ends m' n) rec = absurd (cc (m, m'))
    go r (inr (m, s)) (ends m' n) rec = absurd (n (subst IsWaiting (sym s) w))
