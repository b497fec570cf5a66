-- ===== src/MySql/Query/Tests.antt =====
-- A table of two rows, and a refused statement, for src/MySQL/pool.cpp.
use talib.Prelude.{
  bytes, str_eq, ℕ, ◌≡◌, refl, ◌↔◌, true, false, none, some, List, [], ◌∷◌, arith, if◌then◌else◌,
  ◌>>=◌,
}
use talib.MySql.Query.{
  Reply, c_str, execute_query, fetch, string_row, add_row, get_row_count, get_column_count,
  get_element,
}
use talib.MySql.Query.Rows.{IsResult, rows_of, execute_query_lem}

abbrev table : List (List (List ℕ))
table = (bytes "1" ∷ bytes "ann" ∷ []) ∷ (bytes "2" ∷ [] ∷ []) ∷ []

-- It answers one statement, and refuses every other.
abbrev client : List ℕ → Reply
client q =
    if str_eq q (bytes "select")
    then record { failed = false; result = some (rows_of table) }
    else record { failed = true; result = none }

refuses : (q : List ℕ) → (client q).failed ≡ true → (client q).result ≡ none
refuses q h = ground arith

execute_query_lem_example :
    (execute_query client (bytes "select") ≡ some (false, table))
    ↔ IsResult client (bytes "select") table
unfolding c_str str_eq
execute_query_lem_example = execute_query_lem client (bytes "select") table

second_name :
    (do (failed, t) ← execute_query client (bytes "select"); get_element 0 1 t) ≡ some (bytes "ann")
unfolding execute_query c_str str_eq fetch string_row add_row get_element
second_name = refl

columns : (get_column_count table ≡ some 2) × (get_row_count table ≡ 2)
unfolding get_column_count get_row_count
columns = (refl, refl)
