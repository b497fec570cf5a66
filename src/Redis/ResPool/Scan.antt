-- ===== src/Redis/ResPool/Scan.antt =====
-- What one attempt returns, and what another thread between its two parts can do to it.
use talib.Prelude.{
  ℕ, suc, ◌+◌, ◌≡◌, refl, ap, ◌∙◌, subst, inl, inr, Bool, true, false, not, ◌&&◌, ◌||◌, Option,
  none, some, List, [], ◌∷◌, ◌++◌, arith, ltb, leb, if◌then◌else◌, Bool-cases, length, set,
}
use talib.Redis.ResPool.{
  Data, ResPool, Found, shared, searched, is_free, is_young, scan, search, store, grasp, clear,
  updated,
}
use talib.Redis.ResPool.Steps.{length-scan}

-- The first entry that nobody else uses, that is young and has not been handed out often.
unfoldable pub first_usable : ℕ → ℕ → (ℕ → Bool) → List Data → Option ℕ
first_usable timeout now unique [] = none
first_usable timeout now unique (item ∷ items) =
    let rest = first_usable timeout now unique items in
    elim item.data_ [
      | none ↦ rest
      | some d ↦ if unique d && is_young timeout now item then some d else rest
    ]

unfoldable pub has_free : (ℕ → Bool) → List Data → Bool
has_free unique [] = false
has_free unique (item ∷ items) = is_free unique item.data_ || has_free unique items

abbrev resource_of : Found → Option ℕ
resource_of (shared d) = some d
resource_of (searched idx) = none

abbrev is_nothing : Found → Bool
is_nothing (searched none) = true
is_nothing _ = false

abbrev is_none : Option ℕ → Bool
is_none none = true
is_none (some i) = false

scan-first_usable :
    (timeout now : ℕ) (unique : ℕ → Bool) (i : ℕ) (idx : Option ℕ) (items : List Data)
    → resource_of (scan timeout now unique i idx items).0 ≡ first_usable timeout now unique items
unfolding scan first_usable
scan-first_usable timeout now unique i idx [] = refl
scan-first_usable timeout now unique i idx (item ∷ items) = ground (
  arith,
  scan-first_usable timeout now unique (suc i) (some i) items,
  scan-first_usable timeout now unique (suc i) idx items,
)

scan-has_free :
    (timeout now : ℕ) (unique : ℕ → Bool) (i : ℕ) (idx : Option ℕ) (items : List Data)
    → is_nothing (scan timeout now unique i idx items).0
      ≡ (is_none idx && not (has_free unique items))
unfolding scan has_free
scan-has_free timeout now unique i none [] = refl
scan-has_free timeout now unique i (some j) [] = refl
scan-has_free timeout now unique i idx (item ∷ items) = ground (
  arith,
  scan-has_free timeout now unique (suc i) (some i) items,
  scan-has_free timeout now unique (suc i) idx items,
)

abbrev below : ℕ → Option ℕ → Bool
below n none = true
below n (some j) = ltb j n

abbrev in_range : ℕ → Found → Bool
in_range n (shared d) = true
in_range n (searched idx) = below n idx

below-suc : (n : ℕ) (idx : Option ℕ) → below n idx ≡ true → below (suc n) idx ≡ true
below-suc n none h = refl
below-suc n (some j) h = ground arith

scan_range :
    (timeout now : ℕ) (unique : ℕ → Bool) (i n : ℕ) (idx : Option ℕ) (items : List Data)
    → below i idx ≡ true
    → i + length items ≡ n
    → in_range n (scan timeout now unique i idx items).0 ≡ true
unfolding scan
scan_range timeout now unique i n idx [] h e =
    let e' : i ≡ n = omega arith in subst (λ k. below k idx ≡ true) e' h
scan_range timeout now unique i n idx (item ∷ items) h e = ground (
  arith,
  scan_range timeout now unique (suc i) n (some i) items (ground arith) (omega arith),
  scan_range timeout now unique (suc i) n idx items (below-suc i idx h) (omega arith),
)

-- A usable resource, or what `func` created where the pool is not full.
abbrev choice : Option ℕ → Bool → Option ℕ → Option ℕ
choice (some d) full created = some d
choice none full created = if full then none else created

-- What an attempt returns, when `func` creates `created`.
abbrev pub granted : ℕ → (ℕ → Bool) → Option ℕ → ResPool → Option ℕ
granted now unique created p =
    choice (first_usable p.timeout now unique p.vec)
      (not (has_free unique p.vec) && leb p.maxlen (length p.vec)) created

stored :
    (now : ℕ) (f : Found) (len : ℕ) (created : Option ℕ) (p : ResPool)
    → in_range (length p.vec) f ≡ true
    → (p' : ResPool) × (store now f len created p
        ≡ some (choice (resource_of f) (is_nothing f && leb p.maxlen len) created, p'))
unfolding store
stored now (shared d) len created p h = (p, refl)
stored now (searched none) len none p h = elim (Bool-cases (leb p.maxlen len)) [
  | inl full ↦ (p, rw full refl)
  | inr room ↦ (p, rw room refl)
]
stored now (searched none) len (some d) p h = elim (Bool-cases (leb p.maxlen len)) [
  | inl full ↦ (p, rw full refl)
  | inr room ↦ (
    (if ltb (length p.vec) p.maxlen then record p { vec = p.vec ++ updated now d ∷ [] } else p),
    rw room refl,
  )
]
stored now (searched (some i)) len none p h = (p, refl)
stored now (searched (some i)) len (some d) p h =
    (record p { vec = set p.vec i (updated now d) }, rw h refl)

-- An attempt with no other thread between its parts always returns, and returns this: the first
-- resource in the pool that nobody else uses, that is young and has not been handed out too often;
-- if there is none, no resource where the pool is full and every entry is in use, and otherwise what
-- `func` created.
pub grasp_lem :
    (now : ℕ) (unique : ℕ → Bool) (created : Option ℕ) (p : ResPool)
    → (p' : ResPool) × (grasp now unique created p ≡ some (granted now unique created p, p'))
unfolding grasp search
grasp_lem now unique created p =
    let s = scan p.timeout now unique 0 none p.vec in
    let (p', e) =
      stored now s.0 (length p.vec) created (record p { vec = s.1 })
        (scan_range p.timeout now unique 0 (length s.1) none p.vec refl
          (omega (arith, length-scan p.timeout now unique 0 none p.vec))) in
    (
      p',
      e
          ∙ ap (λ z. some (z, p'))
              (ap (λ z. choice z (is_nothing s.0 && leb p.maxlen (length p.vec)) created)
                  (scan-first_usable p.timeout now unique 0 none p.vec)
                ∙ ap
                    (λ z.
                      choice (first_usable p.timeout now unique p.vec)
                        (z && leb p.maxlen (length p.vec)) created)
                    (scan-has_free p.timeout now unique 0 none p.vec)),
    )

-- Between the two parts of an attempt the lock is free: when another thread clears the pool there,
-- as `clear`, `setTimeout` and `setCreator` do, an attempt that has chosen a free entry then writes
-- outside the vector.
pub cleared_store_faults :
    (now now1 : ℕ) (unique : ℕ → Bool) (i len d : ℕ) (p : ResPool)
    → (search now unique p).0 ≡ searched (some i)
    → store now1 (search now unique p).0 len (some d) (clear (search now unique p).1) ≡ none
unfolding store clear
cleared_store_faults now now1 unique i len d p h =
    let e : ltb i 0 ≡ false = ground arith in rw h (rw e refl)
