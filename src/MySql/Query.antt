-- ===== src/MySql/Query.antt =====
-- src/MySQL/pool.h and pool.cpp: executeQuery and QueryResult. The MySQL client is an argument: what it
-- answers to a statement. `none` is an access out of range, or the use of a null pointer.
pub mod Rows
mod Tests
use talib.Prelude.{
  ℕ, ◌+◌, Bool, Option, some, List, [], ◌∷◌, ◌++◌, ltb, ◌==◌, if◌then◌else◌, ◌>>=◌, ◌>>◌, assert,
  length, get_elem?,
}

-- Whether `mysql_real_query` fails, and the result that `mysql_store_result` then gives, if any: rows
-- of fields, each a string or null.
pub record Reply : Type 0 where
  pub failed : Bool
  pub result : Option (List (List (Option (List ℕ))))

-- A string as C reads it, up to its first zero byte.
unfoldable pub c_str : List ℕ → List ℕ
c_str [] = []
c_str (c ∷ s) = let rest = c ∷ c_str s in if c == 0 then [] else rest

-- The array `q`.
abbrev pub query_size : ℕ
query_size = 100

-- A null field is no string; another is read up to its first zero byte.
unfoldable pub string_row : List (Option (List ℕ)) → Option (List (List ℕ))
unfolding c_str
string_row [] = some []
string_row (field ∷ row) = do item ← field; items ← string_row row; some (c_str item ∷ items)

-- QueryResult.
unfoldable pub add_row : List (List ℕ) → List (List (List ℕ)) → List (List (List ℕ))
add_row row table = table ++ row ∷ []

unfoldable pub fetch :
    List (List (Option (List ℕ))) → List (List (List ℕ)) → Option (List (List (List ℕ)))
unfolding string_row add_row
fetch [] table = some table
fetch (row ∷ rows) table = do items ← string_row row; fetch rows (add_row items table)

-- Whether the error was printed comes first; the statement is copied with a zero byte behind it.
unfoldable pub execute_query : (List ℕ → Reply) → List ℕ → Option (Bool × List (List (List ℕ)))
unfolding c_str fetch
execute_query client statement = do
  let q = c_str statement
  let reply = client q
  assert (ltb (length q) query_size)
  rows ← reply.result
  table ← fetch rows []
  some (reply.failed, table)

unfoldable pub get_row_count : List (List (List ℕ)) → ℕ
get_row_count table = length table

unfoldable pub get_column_count : List (List (List ℕ)) → Option ℕ
get_column_count table = do row ← get_elem? table 0; some (length row)

unfoldable pub get_element : ℕ → ℕ → List (List (List ℕ)) → Option (List ℕ)
get_element row column table = do items ← get_elem? table row; get_elem? items column
