-- ===== src/MySql/Query/Rows.antt =====
-- What a query gives back, and when it does.
use talib.Prelude.{
  ℕ, ◌<◌, ◌≡◌, refl, sym, ap, ◌∙◌, ◌↔◌, inl, inr, true, Option, none, some, List, [], ◌∷◌, ◌++◌,
  map, append-nil, append_assoc, arith, ltb, Bool-cases, Option-cases, >>=-eq-some, length,
}
use talib.MySql.Query.{Reply, c_str, query_size, string_row, add_row, fetch, execute_query}

-- The rows of the client for a table of strings.
abbrev pub fields : List (List ℕ) → List (Option (List ℕ))
fields row = map some row

abbrev pub rows_of : List (List (List ℕ)) → List (List (Option (List ℕ)))
rows_of table = map fields table

-- The table that comes of strings of the client: each ends at its first zero byte.
abbrev pub cut : List (List (List ℕ)) → List (List (List ℕ))
cut texts = map (map c_str) texts

string_row-fields : (row : List (List ℕ)) → string_row (fields row) ≡ some (map c_str row)
unfolding string_row
string_row-fields [] = refl
string_row-fields (item ∷ row) = rw (string_row-fields row) refl

fetch-rows_of :
    (table before : List (List (List ℕ)))
    → fetch (rows_of table) before ≡ some (before ++ cut table)
unfolding fetch add_row
fetch-rows_of [] before = ap some (sym (append-nil before))
fetch-rows_of (row ∷ table) before = rw (string_row-fields row) (
    fetch-rows_of table (before ++ map c_str row ∷ [])
    ∙ ap some (append_assoc before (map c_str row ∷ []) (cut table)))

string_row-some :
    (row : List (Option (List ℕ))) (items : List (List ℕ))
    → string_row row ≡ some items
    → (texts : List (List ℕ)) × (row ≡ fields texts) × (items ≡ map c_str texts)
unfolding string_row
string_row-some [] items h = let e : [] ≡ items = cc h in ([], refl, sym e)
string_row-some (none ∷ row) items h = absurd (cc h)
string_row-some (some item ∷ row) items h =
    let (rest, e, f) = >>=-eq-some (string_row row) (λ r. some (c_str item ∷ r)) h in
    let k : c_str item ∷ rest ≡ items = cc f in
    let (texts, d, g) = string_row-some row rest e in
    (item ∷ texts, ap (λ r. some item ∷ r) d, sym k ∙ ap (λ r. c_str item ∷ r) g)

fetch-some :
    (rows : List (List (Option (List ℕ)))) (before table : List (List (List ℕ)))
    → fetch rows before ≡ some table
    → (more : List (List (List ℕ))) × (rows ≡ rows_of more) × (table ≡ before ++ cut more)
unfolding fetch add_row
fetch-some [] before table h =
    let k : before ≡ table = cc h in ([], refl, sym k ∙ sym (append-nil before))
fetch-some (row ∷ rows) before table h =
    let (items, e, f) =
      >>=-eq-some (string_row row) (λ items. fetch rows (before ++ items ∷ [])) h in
    let (more, d, g) = fetch-some rows (before ++ items ∷ []) table f in
    let (texts, c, k) = string_row-some row items e in
    (
      texts ∷ more,
      ap (λ r. r ∷ rows) c ∙ ap (λ rs. fields texts ∷ rs) d,
      g ∙ append_assoc before (items ∷ []) (cut more) ∙ ap (λ r. before ++ r ∷ cut more) k,
    )

run :
    (client : List ℕ → Reply) (statement : List ℕ) (texts : List (List (List ℕ)))
    → length (c_str statement) < 100
    → (client (c_str statement)).result ≡ some (rows_of texts)
    → execute_query client statement ≡ some ((client (c_str statement)).failed, cut texts)
unfolding execute_query
run client statement texts l e =
    let short : ltb (length (c_str statement)) query_size ≡ true = ground arith in
    rw (short, e, fetch-rows_of texts []) refl

-- The statement fits, and the client answers it with these strings, none of them null.
abbrev pub IsResult : (List ℕ → Reply) → List ℕ → List (List (List ℕ)) → Type 0
IsResult client q table =
    (length q < 100)
    × ((texts : List (List (List ℕ))) × ((client q).result ≡ some (rows_of texts))
        × (table ≡ cut texts))

returned :
    (client : List ℕ → Reply) (statement : List ℕ) (table : List (List (List ℕ)))
    → execute_query client statement ≡ some ((client (c_str statement)).failed, table)
    → IsResult client (c_str statement) table
unfolding execute_query
returned client statement table h =
    let s = c_str statement in
    elim (Bool-cases (ltb (length s) query_size)) [
      | inr long ↦ absurd (cc (h, long))
      | inl short ↦ elim (Option-cases (client s).result) [
        | inl n ↦ absurd (cc (h, n))
        | inr (rows, e) ↦ elim (Option-cases (fetch rows [])) [
          | inl n ↦
              let w : execute_query client statement ≡ none = rw (short, e, n) refl in
              absurd (cc (w, h))
          | inr (t, f) ↦
              let (more, d, g) = fetch-some rows [] t f in
              let w : execute_query client statement ≡ some ((client s).failed, t) =
                rw (short, e, f) refl in
              let k : t ≡ table = cc (w, h) in (ground arith, (more, e ∙ ap some d, sym k ∙ g))
        ]
      ]
    ]

-- A query returns this table exactly when its text, up to the first zero byte, is shorter than the
-- array that it is copied to, and the client gives a result in which no field is null and whose
-- strings, each up to its first zero byte, are those of the table.
pub execute_query_lem :
    (client : List ℕ → Reply) (statement : List ℕ) (table : List (List (List ℕ)))
    → (execute_query client statement ≡ some ((client (c_str statement)).failed, table))
      ↔ IsResult client (c_str statement) table
execute_query_lem client statement table = (
  returned client statement table,
  λ (l, (texts, e, k)).
      run client statement texts l e
      ∙ ap (λ t. some ((client (c_str statement)).failed, t)) (sym k),
)

-- When the client gives no result for a statement that it refuses, as its documentation has it, a
-- statement that is refused ends in the use of a null pointer.
pub refused_faults :
    (client : List ℕ → Reply) (statement : List ℕ)
    → ((q : List ℕ) → (client q).failed ≡ true → (client q).result ≡ none)
    → (client (c_str statement)).failed ≡ true
    → execute_query client statement ≡ none
unfolding execute_query
refused_faults client statement d f =
    elim (Bool-cases (ltb (length (c_str statement)) query_size)) [
      | inl short ↦ rw (short, d (c_str statement) f) refl
      | inr long ↦ rw long refl
    ]
