-- ===== src/MySql/Pool.antt =====
-- src/MySQL/pool.h and pool.cpp, class Pool. A connection is a number that stands for its pointer.
pub mod Use
pub mod Wait
mod Tests
use talib.Prelude.{ℕ, Bool, true, false, Option, none, some, List, [], ◌∷◌, ◌==◌, if◌then◌else◌}

-- `some`: a connection, and whether it is handed out.
pub record Slot : Type 0 where
  pub first : ℕ
  pub second : Bool

-- The constructor: a slot for each new connection.
unfoldable pub new_pool : List ℕ → List Slot
new_pool [] = []
new_pool (conn ∷ conns) = record { first = conn; second = false } ∷ new_pool conns

abbrev under : Slot → Option (ℕ × List Slot) → Option (ℕ × List Slot)
under s none = none
under s (some (conn, slots)) = some (conn, s ∷ slots)

-- One round of the loop of `getConnection`, under the lock; none sleeps and tries again.
unfoldable pub try_connection : List Slot → Option (ℕ × List Slot)
try_connection [] = none
try_connection (s ∷ slots) =
    let later = under s (try_connection slots) in
    if s.second then later else some (s.first, record s { second = true } ∷ slots)

unfoldable pub release_connection : ℕ → List Slot → List Slot
release_connection conn [] = []
release_connection conn (s ∷ slots) =
    let later = s ∷ release_connection conn slots in
    if s.first == conn then record s { second = false } ∷ slots else later

-- What other threads do to the pool: they release a connection, or look for one.
pub data Other : Type 0 where
  releases : ℕ → Other
  looks : Other

-- A thread that looks takes a connection if there is one.
unfoldable pub look : List Slot → List Slot
unfolding try_connection
look slots = elim (try_connection slots) [ none ↦ slots | some found ↦ found.1 ]

unfoldable pub others : List Other → List Slot → List Slot
unfolding release_connection look
others [] slots = slots
others (releases conn ∷ acts) slots = others acts (release_connection conn slots)
others (looks ∷ acts) slots = others acts (look slots)

-- The loop of `getConnection`: each element of `rounds` has what other threads do while it sleeps.
-- `none` is a loop that has not found a connection after them.
unfoldable pub wait_connection : List (List Other) → List Slot → Option (ℕ × List Slot)
unfolding try_connection others
wait_connection [] slots = try_connection slots
wait_connection (acts ∷ rounds) slots =
    let later = wait_connection rounds (others acts slots) in
    elim (try_connection slots) [ none ↦ later | some found ↦ some found ]

-- The first call makes the pool, with the connections `conns`.
unfoldable pub get_connection :
    List ℕ → List (List Other) → Option (List Slot) → Option (ℕ × List Slot)
unfolding new_pool wait_connection
get_connection conns rounds none = wait_connection rounds (new_pool conns)
get_connection conns rounds (some slots) = wait_connection rounds slots
