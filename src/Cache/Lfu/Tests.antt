-- ===== src/Cache/Lfu/Tests.antt =====
-- Small caches.
use talib.Prelude.{str_eq, ◌≡◌, refl, true, some, [], ◌∷◌, arith, ◌>>=◌, length}
use talib.Prelude.Table.{look_up, put, take_away}
use talib.Cache.Lfu.{
  LfuCache, with_capacity, get, store, set, evict, add_freq, add_next, move_up, add, init_list, del,
  holds, unlinked, is_empty, get_last, last_of,
}
use talib.Cache.Lfu.Valid.{IsValid, with_capacity-IsValid}
use talib.Cache.Lfu.Use.{Stores, set-Stores, get-set}

-- "a" has "xy".
set-Stores_example :
    (c' : LfuCache) × (set (97 ∷ []) (120 ∷ 121 ∷ []) (with_capacity 2) ≡ some c')
    × Stores (97 ∷ []) (120 ∷ 121 ∷ []) (with_capacity 2) c'
unfolding with_capacity look_up
set-Stores_example =
    set-Stores (97 ∷ []) (120 ∷ 121 ∷ []) (with_capacity 2) (with_capacity-IsValid 2) (omega arith)
      refl

get-set_example :
    (c1 c2 : LfuCache) × (set (97 ∷ []) (120 ∷ 121 ∷ []) (with_capacity 2) ≡ some c1)
    × (get (97 ∷ []) (60 ∷ []) c1 ≡ some (true, 60 ∷ 120 ∷ 121 ∷ [], c2))
    × IsValid c2
unfolding with_capacity look_up
get-set_example =
    get-set (97 ∷ []) (120 ∷ 121 ∷ []) (60 ∷ []) (with_capacity 2) (with_capacity-IsValid 2)
      (omega arith) refl

-- A key that is stored twice leaves two nodes, of which one no longer counts: the cache then grows
-- beyond its capacity.
grown :
    (do
      c1 ← set (97 ∷ []) [] (with_capacity 2)
      c2 ← set (97 ∷ []) [] c1
      c3 ← set (98 ∷ []) [] c2
      c4 ← set (99 ∷ []) [] c3
      c5 ← set (100 ∷ []) [] c4
      some (length c5.kmap))
    ≡ some 3
unfolding with_capacity set store evict add_freq add_next move_up add init_list del holds unlinked
    is_empty get_last last_of look_up put take_away str_eq
grown = refl
