-- ===== src/Redis/Command/Partial.antt =====
-- A reply that arrives in parts: `getResult` calls `parse` again with all that has been read, on the
-- command that the earlier calls have changed.
use talib.Prelude.{
  decimal, ℕ, suc, ◌+◌, ◌≡◌, refl, sym, ap, ◌∙◌, some, List, [], ◌∷◌, ◌++◌, append-nil,
  append_assoc, arith, length, length-append,
}
use talib.Redis.Command.{timeout, counted, Command, push_res, parse_elements, elements_text, parse}
use talib.Redis.Command.Reply.{
  parse_node-item_text, parse_elements-elements_text, line_end-decimal, atoi-decimal,
}

-- The first bytes of an array of `n` elements.
abbrev pub array_text : ℕ → List ℕ → List ℕ
array_text n body = b'*' ∷ (decimal n ++ 13 ∷ 10 ∷ body)

parse-array_text :
    (n : ℕ) (body : List ℕ) (c : Command)
    → parse (array_text n body) c ≡ parse_elements n body (record c { vec = [] })
unfolding parse
parse-array_text n body c =
    rw (line_end-decimal n body, parse) (rw (atoi-decimal n (10 ∷ body)) refl)

elements_text-append :
    (front back : List (List ℕ))
    → elements_text (front ++ back) ≡ elements_text front ++ elements_text back
unfolding elements_text
elements_text-append [] back = refl
elements_text-append (item ∷ front) back =
    ap (λ z. b'$' ∷ z)
      (ap (λ z. decimal (length item) ++ 13 ∷ 10 ∷ (item ++ 13 ∷ 10 ∷ z))
          (elements_text-append front back)
        ∙ sym (
            append_assoc (decimal (length item)) (13 ∷ 10 ∷ (item ++ 13 ∷ 10 ∷ elements_text front))
              (elements_text back)
            ∙ ap (λ z. decimal (length item) ++ 13 ∷ 10 ∷ z)
                (append_assoc item (13 ∷ 10 ∷ elements_text front) (elements_text back))))

-- Fewer elements than the array has: they are stored, and the parser waits.
parse_elements_waits :
    (k : ℕ) (front : List (List ℕ)) (c : Command)
    → parse_elements (length front + suc k) (elements_text front) c
      ≡ some (timeout, record c { res = c.res ++ front })
unfolding parse_elements elements_text push_res
parse_elements_waits k [] c =
    let e : 0 + suc k ≡ suc k = omega arith in rw (append-nil c.res, e) refl
parse_elements_waits k (item ∷ front) c =
    let e : suc (length front) + suc k ≡ suc (length front + suc k) = omega arith in
    rw (e, parse_node-item_text b'$' item (elements_text front), parse_elements)
      (parse_elements_waits k front (push_res item c)
        ∙ ap some (rw (append_assoc c.res (item ∷ []) front) refl))

-- An array that arrives in two reads, cut between two elements: the first call of `parse` stores the
-- elements it has seen and waits; the second, on the whole text, stores them once more and counts
-- them twice.
pub two_reads_duplicate :
    (front : List (List ℕ)) (item : List ℕ) (back : List (List ℕ)) (c : Command)
    → let n = length front + suc (length back) in
      let seen : Command = record c { res = c.res ++ front; vec = [] } in
      (parse (array_text n (elements_text front)) c ≡ some (timeout, seen))
      × (parse (array_text n (elements_text front) ++ elements_text (item ∷ back)) seen
          ≡ some (
            counted (length c.res + length front + n),
            record seen { res = (c.res ++ front) ++ (front ++ item ∷ back) },
          ))
two_reads_duplicate front item back c = (
  parse-array_text n (elements_text front) c
      ∙ parse_elements_waits (length back) front (record c { vec = [] }),
  ap (λ z. parse z seen) whole
      ∙ parse-array_text n (elements_text (front ++ item ∷ back)) seen
      ∙ ap (λ z. parse_elements z (elements_text (front ++ item ∷ back)) seen) (sym count)
      ∙ parse_elements-elements_text (front ++ item ∷ back) seen
      ∙ ap some (rw (count, length-append c.res front) refl),
)
  where
    n : ℕ
    n = length front + suc (length back)

    seen : Command
    seen = record c { res = c.res ++ front; vec = [] }

    count : length (front ++ item ∷ back) ≡ n
    count = length-append front (item ∷ back)

    whole :
        array_text n (elements_text front) ++ elements_text (item ∷ back)
        ≡ array_text n (elements_text (front ++ item ∷ back))
    whole =
        ap (λ z. b'*' ∷ z)
          (append_assoc (decimal n) (13 ∷ 10 ∷ elements_text front) (elements_text (item ∷ back))
            ∙ ap (λ z. decimal n ++ 13 ∷ 10 ∷ z) (sym (elements_text-append front (item ∷ back))))
