-- ===== src/Cache/Lfu/Use.antt =====
-- Lookups and stores in a valid cache.
use talib.Prelude.{
  str_eq, str_eq_refl, ◌==◌, if◌then◌else◌, ℕ, ◌<◌, ◌≡◌, refl, ◌∙◌, inl, inr, Bool, true, false,
  Option, none, some, List, [], ◌++◌, append-nil, arith, Bool-cases, Option-cases, length,
  if◌then◌else◌,
}
use talib.Prelude.Table.{look_up, length-take_away}
use talib.Cache.Lfu.{KeyNode, LfuCache, get, store, set}
use talib.Cache.Lfu.Evict.{evict-Evicts}
use talib.Cache.Lfu.Store.{store-IsValid}
use talib.Cache.Lfu.Valid.{IsValid, hit-IsValid}

abbrev pub is_hit : Option KeyNode → Bool
is_hit none = false
is_hit (some n) = true

abbrev pub value_of : Option KeyNode → List ℕ
value_of none = []
value_of (some n) = n.value

-- A valid cache answers every lookup, with the value of the key's node if it has one, stays valid and
-- keeps what it holds.
pub get-IsValid :
    (key w : List ℕ) (c : LfuCache)
    → IsValid c
    → (c' : LfuCache) × (get key w c
        ≡ some (is_hit (look_up key c.kmap), w ++ value_of (look_up key c.kmap), c'))
      × (c'.kmap ≡ c.kmap)
      × IsValid c'
unfolding get
get-IsValid key w c v = elim (Option-cases (look_up key c.kmap)) [
  | inl h ↦ (c, rw (h, v.unmapped key h, append-nil w) (ground arith), refl, v)
  | inr (n, h) ↦
      let (f, c', e, d, k, _, u) = hit-IsValid c v key n h in
      let room : (c.capacity == 0) ≡ false =
        ground (arith, v.within, length-take_away key n c.kmap h) in
      (c', rw (room, e, h, d) refl, k, u)
]

-- A miss changes nothing.
pub get_absent :
    (key w : List ℕ) (c : LfuCache)
    → IsValid c
    → look_up key c.kmap ≡ none
    → get key w c ≡ some (false, w, c)
unfolding get
get_absent key w c v h = rw (v.unmapped key h) (ground arith)

-- What happens to the other keys: they stay, or, where the cache is full, one goes that was there.
abbrev pub Others : Bool → List ℕ → Option KeyNode → LfuCache → LfuCache → Type 0
Others false key node c c' =
    (j : List ℕ) → look_up j c'.kmap ≡ (if str_eq key j then node else look_up j c.kmap)
Others true key node c c' =
    (k : List ℕ) × (old : KeyNode) × (look_up k c.kmap ≡ some old)
    × ((j : List ℕ)
        → look_up j c'.kmap
          ≡ (if str_eq key j then node else if str_eq k j then none else look_up j c.kmap))

-- What a store does: it puts the new key there with its value, and has this effect on the others.
pub record Stores (key value : List ℕ) (c c' : LfuCache) : Type 0 where
  pub valid : IsValid c'
  pub same_capacity : c'.capacity ≡ c.capacity
  pub node : KeyNode
  pub found : look_up key c'.kmap ≡ some node
  pub own_value : node.value ≡ value
  pub others : Others (length c.kmap == c.capacity) key (some node) c c'

-- The node of a new key.
abbrev new_node : List ℕ → List ℕ → LfuCache → KeyNode
new_node key value c = record { id = c.made; key = key; value = value }

stored_node :
    (key value : List ℕ) (c : LfuCache)
    → IsValid c
    → look_up key c.kmap ≡ none
    → length c.kmap < c.capacity
    → (c' : LfuCache) × (store key value c ≡ some c')
      × IsValid c'
      × (c'.capacity ≡ c.capacity)
      × Others false key (some (new_node key value c)) c c'
stored_node key value c v a r =
    let (c', d, u, f, s) = store-IsValid key value c v a r in (c', d, u, s, f)

-- In a valid cache with a capacity above 0, a key that is not there is stored, and the cache stays
-- valid, so that it holds no more keys than its capacity. While the cache is not full, every other key
-- keeps what it had; when it is full, one key that was there goes, and every other keeps what it had.
pub set-Stores :
    (key value : List ℕ) (c : LfuCache)
    → IsValid c
    → 0 < c.capacity
    → look_up key c.kmap ≡ none
    → (c' : LfuCache) × (set key value c ≡ some c') × Stores key value c c'
unfolding set
set-Stores key value c v h a =
    let some_room : (c.capacity == 0) ≡ false = ground arith in
    elim (Bool-cases (length c.kmap == c.capacity)) [
      | inr e ↦
          let (c', d, u, s, f) = stored_node key value c v a (ground (arith, v.within)) in
          (
            c',
            rw (some_room, e) d,
            record {
              valid = u;
              same_capacity = s;
              node = new_node key value c;
              found = f key ∙ rw (str_eq_refl key) refl;
              own_value = refl;
              others = rw e f;
            },
          )
      | inl e ↦
          let (k, c1, d, w) = evict-Evicts c v (ground arith) in
          let absent : look_up key c1.kmap ≡ none = ground (arith, w.others key) in
          let room : length c1.kmap < c1.capacity = ground (arith, w.smaller, w.same_capacity) in
          let (c', d', u, s, f) = stored_node key value c1 w.valid absent room in
          (
            c',
            rw (some_room, e, d) d',
            record {
              valid = u;
              same_capacity = s ∙ w.same_capacity;
              node = new_node key value c1;
              found = f key ∙ rw (str_eq_refl key) refl;
              own_value = refl;
              others = rw e (k, w.node, w.was_there, λ j. f j ∙ rw (w.others j) refl);
            },
          )
    ]

-- What was stored under a new key is what the next lookup appends.
pub get-set :
    (key value w : List ℕ) (c : LfuCache)
    → IsValid c
    → 0 < c.capacity
    → look_up key c.kmap ≡ none
    → (c1 c2 : LfuCache) × (set key value c ≡ some c1)
      × (get key w c1 ≡ some (true, w ++ value, c2))
      × IsValid c2
get-set key value w c v h a =
    let (c1, d, s) = set-Stores key value c v h a in
    let (c2, e, _, u) = get-IsValid key w c1 s.valid in
    (c1, c2, d, e ∙ rw (s.found, s.own_value) refl, u)
