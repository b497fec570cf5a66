-- ===== src/MySql/Pool/Tests.antt =====
-- A pool of two connections, for src/MySQL/pool.cpp.
use talib.Prelude.{some, refl, true, List, [], ◌∷◌, some, false}
use talib.MySql.Pool.{
  releases, looks, others, look, try_connection, release_connection, Slot, get_connection,
}
use talib.MySql.Pool.Wait.{has_free, Given, get_connection-Given}
use talib.MySql.Pool.Use.{is_slot, IsPool}

-- Both are in use. Another thread takes the first as soon as it is released, and then the second is.
abbrev busy : List Slot
busy = record { first = 10; second = true } ∷ record { first = 20; second = true } ∷ []

busy-IsPool : IsPool busy
unfolding is_slot
busy-IsPool = (refl, (refl, tt))

abbrev second_free : List Slot
second_free = record { first = 10; second = true } ∷ record { first = 20; second = false } ∷ []

get_connection-Given_example :
    Given
      (some second_free)
      busy
      (get_connection [] ([] ∷ (releases 10 ∷ looks ∷ []) ∷ (releases 20 ∷ []) ∷ []) (some busy))
unfolding has_free others look try_connection release_connection
get_connection-Given_example =
    get_connection-Given [] ([] ∷ (releases 10 ∷ looks ∷ []) ∷ (releases 20 ∷ []) ∷ []) (some busy)
      busy-IsPool
