-- ===== src/Tcp/Server/Removal.antt =====
-- A connection leaves the server once.
use talib.Prelude.{
  ℕ, ◌≡◌, refl, ◌∙◌, inl, inr, Bool, true, false, none, some, List, [], ◌∷◌, ◌++◌, append_assoc,
  arith, ◌==◌, if◌then◌else◌, Bool-cases, find, erase, find-erase,
}
use talib.Tcp.Server.{
  Connection, Effect, destroys, calls_close, TcpServer, emit, remove_connection_in_loop,
}

-- What the server does outside when a connection leaves.
abbrev pub farewell : Bool → ℕ → ℕ → List Effect
farewell true conn loop = calls_close conn ∷ destroys loop conn ∷ []
farewell false conn loop = destroys loop conn ∷ []

-- A connection that the server holds leaves it: nothing else changes in the set, the close callback
-- runs if there is one, and the connection's own loop is asked to destroy it. A second removal fails the
-- assertion.
pub remove_connection_in_loop_lem :
    (conn : ℕ) (c : Connection) (s : TcpServer)
    → find conn s.connections ≡ some c
    → (s' : TcpServer) × (remove_connection_in_loop conn s ≡ some s')
      × ((j : ℕ) → find j s'.connections ≡ (if conn == j then none else find j s.connections))
      × (s'.effects ≡ s.effects ++ farewell s.has_close_call_back conn c.loop)
      × (remove_connection_in_loop conn s' ≡ none)
unfolding remove_connection_in_loop emit
remove_connection_in_loop_lem conn c s h =
    let gone : find conn (erase conn s.connections) ≡ none =
      find-erase conn conn s.connections ∙ ground arith in
    elim (Bool-cases s.has_close_call_back) [
      | inl e ↦ (
        record s {
          connections = erase conn s.connections;
          effects = (s.effects ++ calls_close conn ∷ []) ++ destroys c.loop conn ∷ [];
        },
        rw (h, e) refl,
        λ j. find-erase conn j s.connections,
        rw e (append_assoc s.effects (calls_close conn ∷ []) (destroys c.loop conn ∷ [])),
        rw gone refl,
      )
      | inr e ↦ (
        record s {
          connections = erase conn s.connections;
          effects = s.effects ++ destroys c.loop conn ∷ [];
        },
        rw (h, e) refl,
        λ j. find-erase conn j s.connections,
        rw e refl,
        rw gone refl,
      )
    ]
