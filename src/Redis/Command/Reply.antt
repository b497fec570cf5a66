-- ===== src/Redis/Command/Reply.antt =====
-- A request read as a reply: what `toString` prints, `parse` reads.
use talib.Prelude.{
  is_digit, decimal, read_digits, read-decimal, read-decimal_end, decimal-All, decimal-head, ℕ, suc,
  ◌+◌, ◌<◌, ◌≡◌, refl, sym, ap, ◌∙◌, subst, ◌≢◌, true, false, some, List, [], ◌∷◌, ◌++◌, append-nil,
  append_assoc, arith, ltb, length, drop, All, length-append, take_left, drop_left, drop-drop, pos,
}
use talib.Redis.Command.{
  counted, line_end, atoi, behind, parse_node, Command, push_res, parse_elements, parse,
  elements_text, to_string,
}

-- A line without a zero byte or a carriage return ends at the CRLF behind it.
pub line_end_lem :
    (line rest : List ℕ)
    → All (λ c. (c ≢ 0) × (c ≢ 13)) line
    → line_end (line ++ 13 ∷ 10 ∷ rest) ≡ some (line, rest)
unfolding line_end
line_end_lem [] rest h = refl
line_end_lem (c ∷ []) rest h = ground (arith, h.0)
line_end_lem (c ∷ d ∷ line) rest h =
    rw (line_end_lem (d ∷ line) rest h.1, line_end) (ground (arith, h.0))

pub digits_in_line : (s : List ℕ) → All (λ c. is_digit c ≡ true) s → All (λ c. (c ≢ 0) × (c ≢ 13)) s
digits_in_line [] h = tt
digits_in_line (c ∷ s) h = ((ground (arith, h.0), ground (arith, h.0)), digits_in_line s h.1)

-- A printed length, in front of a CRLF, is read.
atoi_digits :
    (s rest : List ℕ)
    → All (λ c. is_digit c ≡ true) s
    → 0 < length s
    → atoi (s ++ rest) ≡ pos (read_digits 0 (s ++ rest))
unfolding atoi
atoi_digits [] rest h l = absurd (omega arith)
atoi_digits (c ∷ s) rest h l = ground (arith, h.0)

decimal_some : (n : ℕ) → 0 < length (decimal n)
decimal_some n =
    let (c, s, e, d) = decimal-head n in subst (λ z. 0 < length z) (sym e) (omega arith)

pub atoi-decimal : (n : ℕ) (rest : List ℕ) → atoi (decimal n ++ 13 ∷ rest) ≡ pos n
atoi-decimal n rest =
    atoi_digits (decimal n) (13 ∷ rest) (decimal-All n) (decimal_some n)
    ∙ ap pos (read-decimal n 13 rest refl)

pub atoi-decimal_line : (n : ℕ) → atoi (decimal n) ≡ pos n
atoi-decimal_line n =
    ap atoi (sym (append-nil (decimal n)))
    ∙ atoi_digits (decimal n) [] (decimal-All n) (decimal_some n)
    ∙ ap pos (ap (read_digits 0) (append-nil (decimal n)) ∙ read-decimal_end n)

-- An element, as `toString` prints it.
abbrev pub item_text : List ℕ → List ℕ → List ℕ
item_text item rest = decimal (length item) ++ 13 ∷ 10 ∷ (item ++ 13 ∷ 10 ∷ rest)

pub line_end-decimal :
    (n : ℕ) (rest : List ℕ) → line_end (decimal n ++ 13 ∷ 10 ∷ rest) ≡ some (decimal n, rest)
line_end-decimal n rest = line_end_lem (decimal n) rest (digits_in_line (decimal n) (decimal-All n))

-- An element is read whatever its bytes are, CRLF and zero included.
pub parse_node-item_text :
    (d : ℕ) (item rest : List ℕ) → parse_node (d ∷ item_text item rest) ≡ behind item rest
unfolding parse_node
parse_node-item_text d item rest =
    rw (line_end-decimal (length item) (item ++ 13 ∷ 10 ∷ rest), parse_node)
      (rw (atoi-decimal_line (length item))
        (rw (enough, take_left (length item) item (13 ∷ 10 ∷ rest) refl, behind_item) refl))
  where
    enough : ltb (length (item ++ 13 ∷ 10 ∷ rest)) (length item + 2) ≡ false
    enough = ground (arith, length-append item (13 ∷ 10 ∷ rest))

    behind_item : drop (length item + 2) (item ++ 13 ∷ 10 ∷ rest) ≡ rest
    behind_item =
        sym (drop-drop 2 (length item) (length item + 2) (item ++ 13 ∷ 10 ∷ rest) refl)
        ∙ ap (drop 2) (drop_left (length item) item (13 ∷ 10 ∷ rest) refl)

-- The elements in order behind those that were there.
pub parse_elements-elements_text :
    (vec : List (List ℕ)) (c : Command)
    → parse_elements (length vec) (elements_text vec) c
      ≡ some (counted (length c.res + length vec), record c { res = c.res ++ vec })
unfolding parse_elements elements_text push_res
parse_elements-elements_text [] c =
    let e : length c.res + 0 ≡ length c.res = omega arith in rw (append-nil c.res, e) refl
parse_elements-elements_text (item ∷ vec) c =
    rw (parse_node-item_text b'$' item (elements_text vec), parse_elements)
      (parse_elements-elements_text vec (push_res item c)
        ∙ ap some (
            let e : length (c.res ++ item ∷ []) + length vec ≡ length c.res + suc (length vec) =
              omega (arith, length-append c.res (item ∷ [])) in
            rw (e, append_assoc c.res (item ∷ []) vec) refl))

-- The text of a request, read as a reply: its elements go behind the results already there, and the
-- request's own elements are cleared.
pub parse-to_string :
    (q c : Command)
    → parse (to_string q) c
      ≡ some (counted (length c.res + length q.vec), record c { res = c.res ++ q.vec; vec = [] })
unfolding parse to_string
parse-to_string q c =
    rw (line_end-decimal (length q.vec) (elements_text q.vec), parse)
      (rw (atoi-decimal (length q.vec) (10 ∷ elements_text q.vec))
        (parse_elements-elements_text q.vec (record c { vec = [] })))
