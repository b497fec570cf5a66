-- ===== src/Redis/ResPool.antt =====
-- src/Redis/ResPool.h: a pool of shared resources. A resource is a number that stands for the object
-- behind the `shared_ptr`; `unique d` is the answer of `use_count() == 1`, and the time and what
-- `func` creates are arguments. `none` is an access to the vector out of its range.
pub mod Steps
pub mod Scan
mod Tests
use talib.Prelude.{
  ℕ, suc, ◌+◌, Bool, true, ◌&&◌, Option, none, some, List, [], ◌∷◌, ◌++◌, ltb, leb, ◌==◌,
  if◌then◌else◌, ◌>>=◌, ◌>>◌, assert, length, set,
}

pub record Data : Type 0 where
  pub num : ℕ
  pub utime : ℕ
  pub data_ : Option ℕ

-- `update`, by which the constructor sets the fields too.
abbrev pub updated : ℕ → ℕ → Data
updated now d = record { num = 0; utime = now; data_ = some d }

pub record ResPool : Type 0 where
  pub maxlen : ℕ
  pub timeout : ℕ
  pub vec : List Data

-- How the loop over the vector ends: at a resource to share, or at its end, with the last free index.
pub data Found : Type 0 where
  shared : ℕ → Found
  searched : Option ℕ → Found

abbrev pub is_free : (ℕ → Bool) → Option ℕ → Bool
is_free unique none = true
is_free unique (some d) = unique d

abbrev pub is_young : ℕ → ℕ → Data → Bool
is_young timeout now item = ltb item.num 100 && ltb now (item.utime + timeout)

abbrev under : Data → Found × List Data → Found × List Data
under item (f, items) = (f, item ∷ items)

-- The loop of `grasp` from the index `i`, with the free index so far.
unfoldable pub scan : ℕ → ℕ → (ℕ → Bool) → ℕ → Option ℕ → List Data → Found × List Data
scan timeout now unique i idx [] = (searched idx, [])
scan timeout now unique i idx (item ∷ items) =
    let cleared =
      under (record item { data_ = none }) (scan timeout now unique (suc i) (some i) items) in
    let skipped = under item (scan timeout now unique (suc i) idx items) in
    elim item.data_ [
      | none ↦ cleared
      | some d ↦
          if unique d
          then if is_young timeout now item
            then (shared d, record item { num = item.num + 1; utime = now } ∷ items)
            else cleared
          else skipped
    ]

-- The first part of `grasp`, under the lock.
unfoldable pub search : ℕ → (ℕ → Bool) → ResPool → Found × ResPool
unfolding scan
search now unique p =
    let (f, items) = scan p.timeout now unique 0 none p.vec in (f, record p { vec = items })

-- The second part, which takes the lock again: `len` is the size that the first part has seen.
unfoldable pub store : ℕ → Found → ℕ → Option ℕ → ResPool → Option (Option ℕ × ResPool)
store now (shared d) len created p = some (some d, p)
store now (searched none) len created p =
    if leb p.maxlen len then some (none, p) else elim created [
      | none ↦ some (none, p)
      | some d ↦ some (
        some d,
        if ltb (length p.vec) p.maxlen then record p { vec = p.vec ++ updated now d ∷ [] } else p,
      )
    ]
store now (searched (some i)) len created p = elim created [
  | none ↦ some (none, p)
  | some d ↦ do
    assert (ltb i (length p.vec))
    some (some d, record p { vec = set p.vec i (updated now d) })
]

-- One attempt with no other thread between its parts.
unfoldable pub grasp : ℕ → (ℕ → Bool) → Option ℕ → ResPool → Option (Option ℕ × ResPool)
unfolding search store
grasp now unique created p =
    let (f, p') = search now unique p in store now f (length p.vec) created p'

pub clear : ResPool → ResPool
clear p = record p { vec = [] }

-- The first entry with this resource gives it up.
unfoldable pub disabled : ℕ → List Data → List Data
disabled d [] = []
disabled d (item ∷ items) =
    let rest = item ∷ disabled d items in
    elim item.data_ [
      | none ↦ rest
      | some e ↦ if d == e then record item { data_ = none } ∷ items else rest
    ]

unfoldable pub disable : ℕ → ResPool → ResPool
unfolding disabled
disable d p = record p { vec = disabled d p.vec }

pub set_length : ℕ → ResPool → ResPool
set_length maxlen p = record p {
  maxlen = maxlen;
  vec = if ltb maxlen (length p.vec) then [] else p.vec;
}

pub set_timeout : ℕ → ResPool → ResPool
set_timeout timeout p = record p { timeout = timeout; vec = if timeout == 0 then [] else p.vec }
