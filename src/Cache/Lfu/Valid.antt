-- ===== src/Cache/Lfu/Valid.antt =====
-- The lists and the two maps of the cache agree, and a hit keeps them so.
use talib.Prelude.{
  str_eq, str_eq_iff, str_eq_refl, ℕ, ◌+◌, ◌≤◌, ◌<◌, ◌≡◌, refl, sym, ap, ◌∙◌, subst, inl, inr,
  false, none, some, List, arith, ◌==◌, Bool-cases, length,
}
use mathlib.Core.Option.{some-injective}
use talib.Prelude.Table.{look_up, put, IsUnique, look_up-put, put-IsUnique}
use talib.Cache.Lfu.{KeyNode, KeyList, LfuCache, with_capacity, add_freq, move_up}
use talib.Cache.Lfu.Lists.{one_if, occurs, IsRising, AllNodes, Moves, move_up-Moves}

-- A key's node stands once, in the list of the key's frequency, and nowhere else.
pub record IsPlaced (key : List ℕ) (n : KeyNode) (c : LfuCache) : Type 0 where
  pub freq : ℕ
  pub counted : look_up key c.fmap ≡ some freq
  pub behind_head : 0 < freq
  pub own_key : n.key ≡ key
  pub place : (g : ℕ) → occurs g n.id c.lists ≡ one_if (freq == g)

pub record IsValid (c : LfuCache) : Type 0 where
  pub rising : IsRising 0 c.lists
  pub kmap_unique : IsUnique c.kmap
  pub fmap_unique : IsUnique c.fmap
  pub placed : (key : List ℕ) (n : KeyNode) → look_up key c.kmap ≡ some n → IsPlaced key n c
  pub unmapped : (key : List ℕ) → look_up key c.kmap ≡ none → look_up key c.fmap ≡ none
  pub apart :
      (j k : List ℕ) (m n : KeyNode)
      → look_up j c.kmap ≡ some m
      → look_up k c.kmap ≡ some n
      → m.id ≡ n.id
      → j ≡ k
  pub known : AllNodes (λ n. look_up n.key c.kmap ≡ some n) c.lists
  pub fresh : (g i : ℕ) → c.made ≤ i → occurs g i c.lists ≡ 0
  pub within : length c.kmap ≤ c.capacity

pub with_capacity-IsValid : (capacity : ℕ) → IsValid (with_capacity capacity)
unfolding with_capacity look_up occurs
with_capacity-IsValid capacity = record {
  rising = tt;
  kmap_unique = tt;
  fmap_unique = tt;
  placed = λ key n h. cc;
  unmapped = λ key h. refl;
  apart = λ j k m n h. cc;
  known = tt;
  fresh = λ g i h. refl;
  within = omega arith;
}

-- A hit: the node moves to the next frequency.
module _ (c : LfuCache) (v : IsValid c) (key : List ℕ) (n : KeyNode)
    (h : look_up key c.kmap ≡ some n) where
  old : IsPlaced key n c
  old = v.placed key n h

  raised : (ls : List KeyList) → LfuCache
  raised ls = record c { lists = ls; fmap = put n.key (old.freq + 1) c.fmap }

  module _ (ls : List KeyList) (r : IsRising 0 ls) (w : Moves old.freq n c.lists ls) where
    raised-counted : look_up key (raised ls).fmap ≡ some (old.freq + 1)
    unfolding raised
    raised-counted =
        look_up-put n.key key (old.freq + 1) c.fmap ∙ rw old.own_key (rw (str_eq_refl key) refl)

    raised-own : IsPlaced key n (raised ls)
    unfolding raised
    raised-own = record {
      freq = old.freq + 1;
      counted = raised-counted;
      behind_head = omega arith;
      own_key = old.own_key;
      place = λ g. ground (arith, w.moves g n.id, old.place g);
    }

    raised-other :
        (j : List ℕ) (m : KeyNode)
        → look_up j c.kmap ≡ some m
        → str_eq key j ≡ false
        → IsPlaced j m (raised ls)
    unfolding raised
    raised-other j m k d =
        let p = v.placed j m k in
        let other : (n.id == m.id) ≡ false = elim (Bool-cases (n.id == m.id)) [
          | inr e ↦ e
          | inl e ↦
              let same : key ≡ j = v.apart key j n m h k (ground arith) in
              ground (arith, same, str_eq_refl key)
        ] in
        record {
          freq = p.freq;
          counted = look_up-put n.key j (old.freq + 1) c.fmap ∙ rw (old.own_key, d) p.counted;
          behind_head = p.behind_head;
          own_key = p.own_key;
          place = λ g. ground (arith, w.moves g m.id, p.place g);
        }

    raised-IsValid : IsValid (raised ls)
    unfolding raised
    raised-IsValid = record {
      rising = r;
      kmap_unique = v.kmap_unique;
      fmap_unique = put-IsUnique n.key (old.freq + 1) c.fmap v.fmap_unique;
      placed = λ j m k. elim (Bool-cases (str_eq key j)) [
        | inl e ↦
            let same : key ≡ j = (str_eq_iff key j).0 e in
            let node : n ≡ m = some-injective _ _ (sym h ∙ ap (λ z. look_up z c.kmap) same ∙ k) in
            subst (λ z. IsPlaced z m (raised ls)) same
              (subst (λ z. IsPlaced key z (raised ls)) node raised-own)
        | inr e ↦ raised-other j m k e
      ];
      unmapped = λ j k. elim (Bool-cases (str_eq key j)) [
        | inl e ↦ let same : key ≡ j = (str_eq_iff key j).0 e in cc
        | inr e ↦ look_up-put n.key j (old.freq + 1) c.fmap ∙ rw (old.own_key, e) (v.unmapped j k)
      ];
      apart = v.apart;
      known =
          w.keeps_all (λ m. look_up m.key c.kmap ≡ some m)
            (ap (λ z. look_up z c.kmap) old.own_key ∙ h) v.known;
      fresh = λ g i k.
          ground (arith, w.moves g i, v.fresh g i k, v.fresh old.freq i k, old.place old.freq);
      within = v.within;
    }

    -- What add_freq does to the node.
    add_freq-hit : move_up old.freq n c.lists ≡ some ls → add_freq n old.freq c ≡ some (raised ls)
    unfolding add_freq raised
    add_freq-hit d =
        let behind : (old.freq == 0) ≡ false = ground (arith, old.behind_head) in
        rw (behind, d) refl

  -- The node of a key that is there is found, moved, and the cache stays valid.
  pub hit-IsValid :
      (freq : ℕ) × (c' : LfuCache) × (look_up key c.fmap ≡ some freq)
      × (add_freq n freq c ≡ some c')
      × (c'.kmap ≡ c.kmap)
      × (look_up key c'.fmap ≡ some (freq + 1))
      × IsValid c'
  unfolding raised
  hit-IsValid =
      let (ls, d, r, w) =
        move_up-Moves 0 old.freq n c.lists v.rising (ground (arith, old.place old.freq)) in
      (
        old.freq,
        raised ls,
        old.counted,
        add_freq-hit ls r w d,
        refl,
        raised-counted ls r w,
        raised-IsValid ls r w,
      )
