-- ===== src/Redis/Command/Tests.antt =====
-- A request of two elements, for class Command of src/Redis/RedisConnect.h.
use talib.Prelude.{bytes, ℕ, ◌≡◌, some, List, [], ◌∷◌, ◌++◌, pos}
use talib.Redis.Command.{timeout, counted, Command, parse, to_string, elements_text}
use talib.Redis.Command.Reply.{parse-to_string}
use talib.Redis.Command.Partial.{array_text, two_reads_duplicate}

abbrev item_a : List ℕ
item_a = bytes "a"

abbrev item_b : List ℕ
item_b = 13 ∷ 10 ∷ 0 ∷ []

abbrev blank : Command
blank = record { status = pos 0; msg = []; res = []; vec = [] }

abbrev request : Command
request = record blank { vec = item_a ∷ item_b ∷ [] }

parse-to_string_example :
    parse (to_string request) blank ≡ some (counted 2, record blank { res = item_a ∷ item_b ∷ [] })
parse-to_string_example = parse-to_string request blank

two_reads_duplicate_example :
    (parse (array_text 2 (elements_text (item_a ∷ []))) blank
      ≡ some (timeout, record blank { res = item_a ∷ [] }))
    × (parse
          (array_text 2 (elements_text (item_a ∷ [])) ++ elements_text (item_b ∷ []))
          (record blank { res = item_a ∷ [] })
        ≡ some (counted 3, record blank { res = item_a ∷ item_a ∷ item_b ∷ [] }))
two_reads_duplicate_example = two_reads_duplicate (item_a ∷ []) item_b [] blank
