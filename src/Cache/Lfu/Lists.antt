-- ===== src/Cache/Lfu/Lists.antt =====
-- How often each node stands in the list of each frequency, and what moves it.
use talib.Prelude.{
  ℕ, ◌+◌, ◌≤◌, ◌<◌, ◌≡◌, refl, sym, subst, inl, inr, Bool, true, false, ◌&&◌, some, List, [], ◌∷◌,
  arith, ltb, ◌==◌, if◌then◌else◌, Bool-cases, length, All,
}
use talib.Cache.Lfu.{
  KeyNode, KeyList, init_list, add, holds, unlinked, del, is_empty, last_of, get_last, add_next,
  move_up,
}

-- 1 or 0.
abbrev pub one_if : Bool → ℕ
one_if b = if b then 1 else 0

pub times : ℕ → List KeyNode → ℕ
times i [] = 0
times i (n ∷ ns) = one_if (n.id == i) + times i ns

-- Times that node i stands in lists of the frequency.
unfoldable pub occurs : ℕ → ℕ → List KeyList → ℕ
occurs f i [] = 0
occurs f i (l ∷ ls) = (if l.freq == f then times i l.nodes else 0) + occurs f i ls

-- The frequencies rise from this one, and no list is empty.
abbrev pub IsRising : ℕ → List KeyList → Type 0
IsRising f [] = Unit
IsRising f (l ∷ ls) = (f < l.freq) × (0 < length l.nodes) × IsRising l.freq ls

abbrev pub AllNodes : (KeyNode → Type 0) → List KeyList → Type 0
AllNodes P ls = All (λ l. All P l.nodes) ls

holds-times : (i : ℕ) (ns : List KeyNode) → holds i ns ≡ ltb 0 (times i ns)
unfolding holds times
holds-times i [] = ground arith
holds-times i (n ∷ ns) = ground (arith, holds-times i ns)

times-unlinked :
    (i j : ℕ) (ns : List KeyNode)
    → holds i ns ≡ true
    → times j (unlinked i ns) + one_if (i == j) ≡ times j ns
unfolding holds unlinked times
times-unlinked i j [] h = cc
times-unlinked i j (n ∷ ns) h = ground (arith, times-unlinked i j ns)

pub occurs-add_next :
    (f i g : ℕ) (n : KeyNode) (ls : List KeyList)
    → occurs g i (add_next f n ls) ≡ one_if (f == g && n.id == i) + occurs g i ls
unfolding occurs add_next add init_list times
occurs-add_next f i g n [] = ground arith
occurs-add_next f i g n (l ∷ ls) = ground arith

occurs_below : (f i g : ℕ) (ls : List KeyList) → IsRising f ls → g ≤ f → occurs g i ls ≡ 0
unfolding occurs
occurs_below f i g [] r h = refl
occurs_below f i g (l ∷ ls) r h =
    ground (arith, r.0, occurs_below l.freq i g ls r.2 (omega (arith, r.0)))

pub add_next-IsRising :
    (f : ℕ) (n : KeyNode) (ls : List KeyList) → IsRising f ls → IsRising f (add_next (f + 1) n ls)
unfolding add_next add init_list
add_next-IsRising f n [] r = (omega arith, omega arith, tt)
add_next-IsRising f n (l ∷ ls) r = elim (Bool-cases (l.freq == f + 1)) [
  | inl e ↦ rw e (r.0, omega arith, r.2)
  | inr e ↦ rw e (omega arith, omega arith, (ground (arith, r.0), r.1, r.2))
]

module _ (P : KeyNode → Type 0) where
  pub AllNodes-add_next :
      (f : ℕ) (n : KeyNode) (ls : List KeyList) → P n → AllNodes P ls → AllNodes P (add_next f n ls)
  unfolding add_next add init_list
  AllNodes-add_next f n [] p a = ((p, tt), tt)
  AllNodes-add_next f n (l ∷ ls) p a = elim (Bool-cases (l.freq == f)) [
    | inl e ↦ rw e ((p, a.0), a.1)
    | inr e ↦ rw e ((p, tt), a)
  ]

  All-unlinked : (i : ℕ) (ns : List KeyNode) → All P ns → All P (unlinked i ns)
  unfolding unlinked
  All-unlinked i [] a = tt
  All-unlinked i (n ∷ ns) a = elim (Bool-cases (n.id == i)) [
    | inl e ↦ rw e a.1
    | inr e ↦ rw e (a.0, All-unlinked i ns a.1)
  ]

-- The lists with a node taken out of the first.
abbrev pub without : ℕ → KeyList → List KeyList → List KeyList
without i l ls =
    let l' : KeyList = record l { nodes = unlinked i l.nodes } in
    if is_empty l' then ls else l' ∷ ls

lower_bound_too : (f g : ℕ) (ls : List KeyList) → g ≤ f → IsRising f ls → IsRising g ls
lower_bound_too f g [] h r = tt
lower_bound_too f g (l ∷ ls) h r = (omega (arith, r.0), r.1, r.2)

times_empty : (j : ℕ) (ns : List KeyNode) → length ns ≡ 0 → times j ns ≡ 0
unfolding times
times_empty j [] h = refl
times_empty j (n ∷ ns) h = absurd (omega arith)

-- What `without` gives, whatever comes behind the list.
module _ (i : ℕ) (l : KeyList) (ls : List KeyList) (h : holds i l.nodes ≡ true) where
  pub occurs-without :
      (g j : ℕ) → occurs g j (without i l ls) + one_if (l.freq == g && i == j) ≡ occurs g j (l ∷ ls)
  unfolding occurs is_empty
  occurs-without g j = elim (Bool-cases (length (unlinked i l.nodes) == 0)) [
    | inl e ↦ rw e (
        ground
          (arith, times_empty j (unlinked i l.nodes) (ground arith), times-unlinked i j l.nodes h))
    | inr e ↦ rw e (ground (arith, times-unlinked i j l.nodes h))
  ]

  pub without-IsRising : (f : ℕ) → f < l.freq → IsRising l.freq ls → IsRising f (without i l ls)
  unfolding is_empty
  without-IsRising f k r = elim (Bool-cases (length (unlinked i l.nodes) == 0)) [
    | inl e ↦ rw e (lower_bound_too l.freq f ls (omega arith) r)
    | inr e ↦ rw e (k, ground arith, r)
  ]

  pub AllNodes-without : (P : KeyNode → Type 0) → AllNodes P (l ∷ ls) → AllNodes P (without i l ls)
  unfolding is_empty
  AllNodes-without P a = elim (Bool-cases (length (unlinked i l.nodes) == 0)) [
    | inl e ↦ rw e a.1
    | inr e ↦ rw e (All-unlinked P i l.nodes a.0, a.1)
  ]

-- A node that stands in a list moves to the next frequency, and nothing else changes.
pub record Moves (f : ℕ) (n : KeyNode) (ls ls' : List KeyList) : Type 1 where
  pub moves :
      (g i : ℕ)
      → occurs g i ls' + one_if (f == g && n.id == i)
        ≡ occurs g i ls + one_if (f + 1 == g && n.id == i)
  pub keeps_all : (P : KeyNode → Type 0) → P n → AllNodes P ls → AllNodes P ls'

pub move_up-Moves :
    (m f : ℕ) (n : KeyNode) (ls : List KeyList)
    → IsRising m ls
    → 0 < occurs f n.id ls
    → (ls' : List KeyList) × (move_up f n ls ≡ some ls') × IsRising m ls' × Moves f n ls ls'
unfolding occurs move_up del
move_up-Moves m f n [] r h = absurd (omega arith)
move_up-Moves m f n (l ∷ ls) r h = elim (Bool-cases (l.freq == f)) [
  | inl e ↦
      let same : l.freq ≡ f = ground arith in
      let above : occurs f n.id ls ≡ 0 = occurs_below l.freq n.id f ls r.2 (omega arith) in
      let here : holds n.id l.nodes ≡ true = ground (arith, holds-times n.id l.nodes) in
      let rest : IsRising l.freq (add_next (f + 1) n ls) =
        subst (λ z. IsRising z (add_next (f + 1) n ls)) (sym same)
          (add_next-IsRising f n ls (subst (λ z. IsRising z ls) same r.2)) in
      (
        without n.id l (add_next (f + 1) n ls),
        rw (e, here) refl,
        without-IsRising n.id l (add_next (f + 1) n ls) here m r.0 rest,
        record {
          moves = λ g i. ground (
            arith,
            occurs-without n.id l (add_next (f + 1) n ls) here g i,
            occurs-add_next (f + 1) i g n ls,
          );
          keeps_all = λ P p a.
              AllNodes-without n.id l (add_next (f + 1) n ls) here P
                (a.0, AllNodes-add_next P (f + 1) n ls p a.1);
        },
      )
  | inr e ↦
      let (ls', d, s, w) = move_up-Moves l.freq f n ls r.2 (ground arith) in
      (
        l ∷ ls',
        rw (e, d) refl,
        (r.0, r.1, s),
        record {
          moves = λ g i. ground (arith, w.moves g i);
          keeps_all = λ P p a. (a.0, w.keeps_all P p a.1);
        },
      )
]

-- The last node of a list that is not empty is one of its nodes.
last_of-lem :
    (n : KeyNode) (ns : List KeyNode)
    → (holds (last_of n ns).id (n ∷ ns) ≡ true)
      × ((P : KeyNode → Type 0) → All P (n ∷ ns) → P (last_of n ns))
unfolding last_of holds
last_of-lem n [] = (ground arith, λ P a. a.0)
last_of-lem n (m ∷ ns) = let (a, b) = last_of-lem m ns in (ground (arith, a), λ P h. b P h.1)

pub get_last-lem :
    (f : ℕ) (ns : List KeyNode)
    → 0 < length ns
    → (n : KeyNode) × (get_last (record { freq = f; nodes = ns }) ≡ some n)
      × (holds n.id ns ≡ true)
      × ((P : KeyNode → Type 0) → All P ns → P n)
unfolding get_last
get_last-lem f [] h = absurd (omega arith)
get_last-lem f (n ∷ ns) h = (last_of n ns, refl, (last_of-lem n ns).0, (last_of-lem n ns).1)

none_here : (i : ℕ) (ns : List KeyNode) → times i ns ≡ 0 → All (λ n. (n.id == i) ≡ false) ns
unfolding times
none_here i [] e = tt
none_here i (n ∷ ns) e = (ground arith, none_here i ns (ground arith))

-- No node of another number.
pub nodes_of_others :
    (i : ℕ) (ls : List KeyList)
    → ((g : ℕ) → occurs g i ls ≡ 0)
    → AllNodes (λ n. (n.id == i) ≡ false) ls
unfolding occurs
nodes_of_others i [] h = tt
nodes_of_others i (l ∷ ls) h = (
  none_here i l.nodes (ground (arith, h l.freq)),
  nodes_of_others i ls (λ g. ground (arith, h g)),
)

All_both :
    {P Q R : KeyNode → Type 0}
    → ((n : KeyNode) → P n → Q n → R n)
    → (ns : List KeyNode) → All P ns
    → All Q ns
    → All R ns
All_both f [] a b = tt
All_both f (n ∷ ns) a b = (f n a.0 b.0, All_both f ns a.1 b.1)

pub nodes_of_both :
    {P Q R : KeyNode → Type 0}
    → ((n : KeyNode) → P n → Q n → R n)
    → (ls : List KeyList) → AllNodes P ls
    → AllNodes Q ls
    → AllNodes R ls
nodes_of_both f [] a b = tt
nodes_of_both f (l ∷ ls) a b = (All_both f l.nodes a.0 b.0, nodes_of_both f ls a.1 b.1)
