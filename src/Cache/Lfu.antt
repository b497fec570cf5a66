-- ===== src/Cache/Lfu.antt =====
-- src/cache/LFUCache.h and LFUCache.cpp. A node is known by the number of its allocation, and the
-- list of one frequency by that frequency, which no two lists share; the head of the lists, which
-- has frequency 0 and holds nothing, is left out. `none` is the use of a null or dangling pointer.
-- A frequency is taken to stay below 2^31.
pub mod Lists
pub mod Valid
pub mod Evict
pub mod Store
pub mod Use
mod Tests
use talib.Prelude.{
  ℕ, ◌+◌, Bool, true, false, ◌||◌, Option, none, some, List, [], ◌∷◌, ◌++◌, ◌==◌, if◌then◌else◌,
  ◌>>=◌, ◌>>◌, length,
}
use talib.Prelude.Table.{look_up, put, take_away}

pub record KeyNode : Type 0 where
  pub id : ℕ
  pub key : List ℕ
  pub value : List ℕ

-- The nodes behind the head, the last one added first.
pub record KeyList : Type 0 where
  pub freq : ℕ
  pub nodes : List KeyNode

unfoldable pub init_list : ℕ → KeyList
init_list freq = record { freq = freq; nodes = [] }

unfoldable pub add : KeyNode → KeyList → KeyList
add node l = record l { nodes = node ∷ l.nodes }

unfoldable pub holds : ℕ → List KeyNode → Bool
holds i [] = false
holds i (n ∷ ns) = n.id == i || holds i ns

unfoldable pub unlinked : ℕ → List KeyNode → List KeyNode
unlinked i [] = []
unlinked i (n ∷ ns) = let rest = unlinked i ns in if n.id == i then ns else n ∷ rest

-- The node's neighbours are in this list if the node is.
unfoldable pub del : KeyNode → KeyList → Option KeyList
unfolding holds unlinked
del node l =
    if holds node.id l.nodes then some (record l { nodes = unlinked node.id l.nodes }) else none

unfoldable pub is_empty : KeyList → Bool
is_empty l = length l.nodes == 0

unfoldable pub last_of : KeyNode → List KeyNode → KeyNode
last_of n [] = n
last_of n (m ∷ ns) = last_of m ns

-- The head itself, which no node is before, if the list is empty.
unfoldable pub get_last : KeyList → Option KeyNode
unfolding last_of
get_last l = elim l.nodes [ [] ↦ none | ◌∷◌ n ns ↦ some (last_of n ns) ]

pub record LfuCache : Type 0 where
  pub capacity : ℕ
  pub lists : List KeyList
  pub kmap : List (List ℕ × KeyNode)
  pub fmap : List (List ℕ × ℕ)
  pub made : ℕ

unfoldable pub with_capacity : ℕ → LfuCache
with_capacity capacity = record { capacity = capacity; lists = []; kmap = []; fmap = []; made = 0 }

unfoldable pub init : LfuCache
unfolding with_capacity
init = with_capacity 100

-- The list of the next frequency, a new one unless it is there, gets the node.
unfoldable pub add_next : ℕ → KeyNode → List KeyList → List KeyList
unfolding add init_list
add_next freq node [] = add node (init_list freq) ∷ []
add_next freq node (l ∷ ls) =
    if l.freq == freq then add node l ∷ ls else add node (init_list freq) ∷ l ∷ ls

-- From the list of this frequency, which goes if it is empty then, to the next.
unfoldable pub move_up : ℕ → KeyNode → List KeyList → Option (List KeyList)
unfolding add_next del is_empty
move_up freq node [] = none
move_up freq node (l ∷ ls) =
    let above = move_up freq node ls in
    if l.freq == freq
    then (do
      l' ← del node l
      let rest = add_next (freq + 1) node ls
      some (if is_empty l' then rest else l' ∷ rest))
    else (do ls' ← above; some (l ∷ ls'))

-- The frequency is 0 for the head.
unfoldable pub add_freq : KeyNode → ℕ → LfuCache → Option LfuCache
unfolding move_up add_next
add_freq node freq c = do
  ls ← (if freq == 0 then some (add_next 1 node c.lists) else move_up freq node c.lists)
  some (record c { lists = ls; fmap = put node.key (freq + 1) c.fmap })

-- Whether the key is there, and the second string with its value appended.
unfoldable pub get : List ℕ → List ℕ → LfuCache → Option (Bool × List ℕ × LfuCache)
unfolding add_freq
get key v c = if c.capacity == 0 then some (false, v, c) else elim (look_up key c.fmap) [
  | none ↦ some (false, v, c)
  | some freq ↦ do
    node ← look_up key c.kmap
    c' ← add_freq node freq c
    some (true, v ++ node.value, c')
]

-- The first list loses its last node.
unfoldable pub evict : LfuCache → Option LfuCache
unfolding get_last del is_empty
evict c = elim c.lists [
  | [] ↦ none
  | ◌∷◌ l ls ↦ do
    node ← get_last l
    l' ← del node l
    some (record c {
      lists = if is_empty l' then ls else l' ∷ ls;
      kmap = take_away node.key c.kmap;
      fmap = take_away node.key c.fmap;
    })
]

-- With room for the node.
unfoldable pub store : List ℕ → List ℕ → LfuCache → Option LfuCache
unfolding add_freq
store key v c = do
  let node : KeyNode = record { id = c.made; key = key; value = v }
  c' ← add_freq node 0 (record c { made = c.made + 1 })
  some (record c' { kmap = put key node c'.kmap })

unfoldable pub set : List ℕ → List ℕ → LfuCache → Option LfuCache
unfolding evict store
set key v c =
    if c.capacity == 0
    then some c
    else (do c' ← (if length c.kmap == c.capacity then evict c else some c); store key v c')
