-- ===== src/Cache/Lfu/Store.antt =====
-- Storing a key that is not there.
use talib.Prelude.{
  str_eq, str_eq_iff, str_eq_refl, ℕ, ◌+◌, ◌<◌, ◌≡◌, refl, sym, ap, ◌∙◌, subst, ◌⊎◌, inl, inr,
  false, none, some, List, arith, ltb, if◌then◌else◌, Bool-cases, length,
}
use mathlib.Core.Option.{some-injective}
use talib.Prelude.Table.{look_up, put, look_up-put, put-IsUnique, length-put}
use talib.Cache.Lfu.{KeyNode, LfuCache, add_freq, store, add_next}
use talib.Cache.Lfu.Lists.{nodes_of_both, occurs-add_next, add_next-IsRising, AllNodes-add_next}
use talib.Cache.Lfu.Valid.{IsPlaced, IsValid}

-- A node made for a key that is not there.
module _ (key value : List ℕ) (c : LfuCache) (v : IsValid c) (absent : look_up key c.kmap ≡ none)
    (room : length c.kmap < c.capacity) where
  node : KeyNode
  node = record { id = c.made; key = key; value = value }

  stored : LfuCache
  unfolding node
  stored = record c {
    lists = add_next 1 node c.lists;
    kmap = put key node c.kmap;
    fmap = put key 1 c.fmap;
    made = c.made + 1;
  }

  stored-kmap :
      (j : List ℕ) → look_up j stored.kmap ≡ (if str_eq key j then some node else look_up j c.kmap)
  unfolding stored
  stored-kmap j = look_up-put key j node c.kmap

  stored-fmap :
      (j : List ℕ) → look_up j stored.fmap ≡ (if str_eq key j then some 1 else look_up j c.fmap)
  unfolding stored
  stored-fmap j = look_up-put key j 1 c.fmap

  older : (j : List ℕ) (m : KeyNode) → look_up j c.kmap ≡ some m → m.id < c.made
  older j m h =
      let p = v.placed j m h in
      elim (Bool-cases (ltb m.id c.made)) [
        | inl e ↦ ground arith
        | inr e ↦ absurd (ground (arith, p.place p.freq, v.fresh p.freq m.id (ground arith)))
      ]

  -- A key of the new cache has the new node, or is another with its old one.
  stored-from :
      (j : List ℕ) (m : KeyNode)
      → look_up j stored.kmap ≡ some m
      → ((key ≡ j) × (node ≡ m)) ⊎ ((str_eq key j ≡ false) × (look_up j c.kmap ≡ some m))
  stored-from j m h = elim (Bool-cases (str_eq key j)) [
    | inl e ↦ inl ((str_eq_iff key j).0 e, some-injective _ _ (sym (stored-kmap j ∙ rw e refl) ∙ h))
    | inr e ↦ inr (e, sym (stored-kmap j ∙ rw e refl) ∙ h)
  ]

  stored-new : IsPlaced key node stored
  unfolding stored node
  stored-new = record {
    freq = 1;
    counted = stored-fmap key ∙ rw (str_eq_refl key) refl;
    behind_head = omega arith;
    own_key = refl;
    place = λ g.
        ground (arith, occurs-add_next 1 c.made g node c.lists, v.fresh g c.made (omega arith));
  }

  stored-other :
      (j : List ℕ) (m : KeyNode)
      → str_eq key j ≡ false
      → look_up j c.kmap ≡ some m
      → IsPlaced j m stored
  unfolding stored node
  stored-other j m e k =
      let q = v.placed j m k in
      record {
        freq = q.freq;
        counted = stored-fmap j ∙ rw e q.counted;
        behind_head = q.behind_head;
        own_key = q.own_key;
        place = λ g. ground (arith, occurs-add_next 1 m.id g node c.lists, q.place g, older j m k);
      }

  still_stored : (m : KeyNode) → look_up m.key c.kmap ≡ some m → look_up m.key stored.kmap ≡ some m
  still_stored m h = elim (Bool-cases (str_eq key m.key)) [
    | inr e ↦ stored-kmap m.key ∙ rw e h
    | inl e ↦ let same : key ≡ m.key = (str_eq_iff key m.key).0 e in cc
  ]

  stored-apart :
      (j k : List ℕ) (m n : KeyNode)
      → look_up j stored.kmap ≡ some m
      → look_up k stored.kmap ≡ some n
      → m.id ≡ n.id
      → j ≡ k
  unfolding node
  stored-apart j k m n h h' e = elim (stored-from j m h) [
    | inl (a, b) ↦ elim (stored-from k n h') [
      | inl (a', b') ↦ sym a ∙ a'
      | inr (d', b') ↦ absurd (omega (arith, older k n b', ap (λ z. z.id) b))
    ]
    | inr (d, b) ↦ elim (stored-from k n h') [
      | inl (a', b') ↦ absurd (omega (arith, older j m b, ap (λ z. z.id) b'))
      | inr (d', b') ↦ v.apart j k m n b b' e
    ]
  ]

  stored-IsValid : IsValid stored
  unfolding stored node
  stored-IsValid = record {
    rising = add_next-IsRising 0 node c.lists v.rising;
    kmap_unique = put-IsUnique key node c.kmap v.kmap_unique;
    fmap_unique = put-IsUnique key 1 c.fmap v.fmap_unique;
    placed = λ j m h. elim (stored-from j m h) [
      | inl (a, b) ↦
          subst (λ z. IsPlaced z m stored) a (subst (λ z. IsPlaced key z stored) b stored-new)
      | inr (d, b) ↦ stored-other j m d b
    ];
    unmapped = λ j h. ground (arith, stored-kmap j, stored-fmap j, v.unmapped j);
    apart = stored-apart;
    known =
        AllNodes-add_next (λ m. look_up m.key stored.kmap ≡ some m) 1 node c.lists
          (stored-kmap key ∙ rw (str_eq_refl key) refl)
          (nodes_of_both (λ m a b. still_stored m a) c.lists v.known v.known);
    fresh = λ g i h. ground (arith, occurs-add_next 1 i g node c.lists, v.fresh g i (omega arith));
    within = ground (arith, length-put key node c.kmap absent);
  }

  pub store-IsValid :
      (c' : LfuCache) × (store key value c ≡ some c')
      × IsValid c'
      × ((j : List ℕ)
          → look_up j c'.kmap ≡ (
              if str_eq key j
              then some (record { id = c.made; key = key; value = value })
              else look_up j c.kmap))
      × (c'.capacity ≡ c.capacity)
  unfolding store add_freq node stored
  store-IsValid = (stored, refl, stored-IsValid, stored-kmap, refl)
