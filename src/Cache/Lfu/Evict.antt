-- ===== src/Cache/Lfu/Evict.antt =====
-- Making room.
use talib.Prelude.{
  str_eq, str_eq_iff, str_eq_refl, ℕ, suc, ◌<◌, ◌≡◌, refl, sym, ap, ◌∙◌, inl, inr, true, false,
  none, some, List, [], ◌∷◌, arith, ◌==◌, if◌then◌else◌, Bool-cases, length,
}
use mathlib.Core.Option.{some-injective}
use talib.Prelude.Table.{
  look_up, take_away, look_up-take_away, take_away-IsUnique, length-take_away,
}
use talib.Cache.Lfu.{KeyNode, KeyList, LfuCache, del, evict}
use talib.Cache.Lfu.Lists.{
  occurs, get_last-lem, without, occurs-without, without-IsRising, AllNodes-without,
  nodes_of_others, nodes_of_both,
}
use talib.Cache.Lfu.Valid.{IsPlaced, IsValid}

-- A key is gone, and with it its node; every other key keeps its node.
pub record Evicts (key : List ℕ) (c c' : LfuCache) : Type 0 where
  pub valid : IsValid c'
  pub others : (j : List ℕ) → look_up j c'.kmap ≡ (if str_eq key j then none else look_up j c.kmap)
  pub node : KeyNode
  pub was_there : look_up key c.kmap ≡ some node
  pub smaller : length c.kmap ≡ suc (length c'.kmap)
  pub same_capacity : c'.capacity ≡ c.capacity
  pub same_made : c'.made ≡ c.made

module _ (c : LfuCache) (l : KeyList) (ls : List KeyList)
    (v : IsValid (record c { lists = l ∷ ls })) (n : KeyNode)
    (held : talib.Cache.Lfu.holds n.id l.nodes ≡ true) (known : look_up n.key c.kmap ≡ some n) where
  evicted : LfuCache
  evicted = record c {
    lists = without n.id l ls;
    kmap = take_away n.key c.kmap;
    fmap = take_away n.key c.fmap;
  }

  evicted-kmap :
      (j : List ℕ) → look_up j evicted.kmap ≡ (if str_eq n.key j then none else look_up j c.kmap)
  unfolding evicted
  evicted-kmap j = look_up-take_away n.key j c.kmap v.kmap_unique

  evicted-fmap :
      (j : List ℕ) → look_up j evicted.fmap ≡ (if str_eq n.key j then none else look_up j c.fmap)
  unfolding evicted
  evicted-fmap j = look_up-take_away n.key j c.fmap v.fmap_unique

  evicted-from :
      (j : List ℕ) (m : KeyNode)
      → look_up j evicted.kmap ≡ some m
      → (str_eq n.key j ≡ false) × (look_up j c.kmap ≡ some m)
  evicted-from j m h = elim (Bool-cases (str_eq n.key j)) [
    | inl e ↦ ground (arith, evicted-kmap j)
    | inr e ↦ (e, ground (arith, evicted-kmap j))
  ]

  evicted-gone : (g : ℕ) → occurs g n.id (without n.id l ls) ≡ 0
  evicted-gone g =
      let p = v.placed n.key n known in
      let here = occurs-without n.id l ls held l.freq n.id in
      let same : p.freq ≡ l.freq = ground (arith, here, p.place l.freq) in
      ground (arith, occurs-without n.id l ls held g n.id, p.place g, same)

  evicted-other :
      (j : List ℕ) (m : KeyNode)
      → str_eq n.key j ≡ false
      → look_up j c.kmap ≡ some m
      → IsPlaced j m evicted
  unfolding evicted
  evicted-other j m e k =
      let q = v.placed j m k in
      let other : (n.id == m.id) ≡ false = elim (Bool-cases (n.id == m.id)) [
        | inr d ↦ d
        | inl d ↦
            let same : n.key ≡ j = v.apart n.key j n m known k (ground arith) in
            ground (arith, same, str_eq_refl n.key)
      ] in
      record {
        freq = q.freq;
        counted = evicted-fmap j ∙ rw e q.counted;
        behind_head = q.behind_head;
        own_key = q.own_key;
        place = λ g. ground (arith, occurs-without n.id l ls held g m.id, q.place g);
      }

  still_known :
      (m : KeyNode)
      → look_up m.key c.kmap ≡ some m
      → (m.id == n.id) ≡ false
      → look_up m.key evicted.kmap ≡ some m
  still_known m h d = elim (Bool-cases (str_eq n.key m.key)) [
    | inr e ↦ evicted-kmap m.key ∙ rw e h
    | inl e ↦
        let same : n.key ≡ m.key = (str_eq_iff n.key m.key).0 e in
        let node : n ≡ m = some-injective _ _ (sym known ∙ ap (λ z. look_up z c.kmap) same ∙ h) in
        absurd (ground (arith, ap (λ z. z.id) node, d))
  ]

  evicted-Evicts : Evicts n.key (record c { lists = l ∷ ls }) evicted
  unfolding evicted
  evicted-Evicts = record {
    valid = record {
      rising = without-IsRising n.id l ls held 0 v.rising.0 v.rising.2;
      kmap_unique = take_away-IsUnique n.key c.kmap v.kmap_unique;
      fmap_unique = take_away-IsUnique n.key c.fmap v.fmap_unique;
      placed = λ j m h. let (e, k) = evicted-from j m h in evicted-other j m e k;
      unmapped = λ j h. elim (Bool-cases (str_eq n.key j)) [
        | inl e ↦ evicted-fmap j ∙ rw e refl
        | inr e ↦ evicted-fmap j ∙ rw e (v.unmapped j (ground (arith, evicted-kmap j)))
      ];
      apart = λ j k m m' h h'. v.apart j k m m' (evicted-from j m h).1 (evicted-from k m' h').1;
      known =
          nodes_of_both still_known (without n.id l ls)
            (AllNodes-without n.id l ls held (λ m. look_up m.key c.kmap ≡ some m) v.known)
            (nodes_of_others n.id (without n.id l ls) evicted-gone);
      fresh = λ g i h. ground (arith, occurs-without n.id l ls held g i, v.fresh g i h);
      within = ground (arith, length-take_away n.key n c.kmap known, v.within);
    };
    others = evicted-kmap;
    node = n;
    was_there = known;
    smaller = length-take_away n.key n c.kmap known;
    same_capacity = refl;
    same_made = refl;
  }

first_entry :
    (m : List (List ℕ × KeyNode))
    → 0 < length m
    → (k : List ℕ) × (n : KeyNode) × (look_up k m ≡ some n)
unfolding look_up
first_entry [] h = absurd (omega arith)
first_entry ((k, n) ∷ m) h = (k, n, rw (str_eq_refl k) refl)

evict_lists :
    (c : LfuCache) (ls : List KeyList)
    → IsValid (record c { lists = ls })
    → 0 < length c.kmap
    → (key : List ℕ) × (c' : LfuCache) × (evict (record c { lists = ls }) ≡ some c')
      × Evicts key (record c { lists = ls }) c'
unfolding evict del evicted occurs
evict_lists c [] v h =
    let (k, n, e) = first_entry c.kmap h in
    let p = v.placed k n e in absurd (ground (arith, p.place p.freq))
evict_lists c (l ∷ ls) v h =
    let (n, e, held, every) = get_last-lem l.freq l.nodes v.rising.1 in
    let known = every (λ m. look_up m.key c.kmap ≡ some m) v.known.0 in
    (n.key, evicted c l ls v n held known, rw (e, held) refl, evicted-Evicts c l ls v n held known)

-- In a valid cache that is not empty, eviction finds a node, and takes exactly its key.
pub evict-Evicts :
    (c : LfuCache)
    → IsValid c
    → 0 < length c.kmap
    → (key : List ℕ) × (c' : LfuCache) × (evict c ≡ some c') × Evicts key c c'
evict-Evicts c v h = evict_lists c c.lists v h
