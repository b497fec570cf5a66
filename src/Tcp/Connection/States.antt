-- ===== src/Tcp/Connection/States.antt =====
-- The states of a connection: which changes its methods make.
use talib.Prelude.{
  bytes, ℕ, ◌≤◌, ◌≡◌, refl, inl, inr, Bool, true, false, Option, some, List, [], ◌∷◌, arith,
  Option-cases, ◌>>=◌, >>=-eq-some, take, drop, ◌+◌,
}
use talib.Buffer.{Incoming, read_fd}
use talib.Tcp.Connection.Stream.{tested}
use talib.Tcp.Connection.{
  writes, taken, Connection, State, disconnected, connecting, disconnecting, connected, Written,
  is_open, keep_rest, emit, connect_established, send, send_in_loop, shutdown, handle_close,
  handle_read, handle_write, connect_destroyed, force_close, force_close_in_loop,
}

-- The changes of state: a new connection is established once, an open one is shut down or closed,
-- and a closed one stays closed.
abbrev pub may_move : State → State → Bool
may_move connecting connecting = true
may_move connecting connected = true
may_move connected connected = true
may_move connected disconnecting = true
may_move connected disconnected = true
may_move disconnecting disconnecting = true
may_move disconnecting disconnected = true
may_move disconnected disconnected = true
may_move _ _ = false

-- What the loop and the users of a connection do to it.
pub data Event : Type 0 where
  establish close_event destroy force force_run : Event
  shut : Bool → Event
  transmit : Bool → Written → List ℕ → Event
  readable : Incoming → Event
  writable : Written → Event

unfoldable pub step : Event → Connection → Option Connection
step establish c = connect_established c
step close_event c = handle_close c
step destroy c = connect_destroyed c
step force c = some (force_close c)
step force_run c = force_close_in_loop c
step (shut in_loop) c = some (shutdown in_loop c)
step (transmit in_loop w bytes) c = send in_loop w bytes c
step (readable i) c = handle_read i c
step (writable w) c = handle_write w c

state-keep_rest :
    (bytes : List ℕ) (c c' : Connection) → keep_rest bytes c ≡ some c' → c'.state ≡ c.state
unfolding keep_rest
state-keep_rest bytes c c' h = ground arith

state-send_in_loop :
    (w : Written) (bytes : List ℕ) (c c' : Connection)
    → send_in_loop w bytes c ≡ some c'
    → c'.state ≡ c.state
unfolding send_in_loop
state-send_in_loop w bytes c c' h = ground (
  arith,
  state-keep_rest (drop (taken w) bytes) (emit (writes (take (taken w) bytes)) (tested c)) c',
  state-keep_rest bytes (tested c) c',
)

may_move_refl : (s : State) → may_move s s ≡ true
may_move_refl disconnected = refl
may_move_refl connecting = refl
may_move_refl disconnecting = refl
may_move_refl connected = refl

close_move :
    (c c' : Connection)
    → handle_close c ≡ some c'
    → (is_open c.state ≡ true) × (c'.state ≡ disconnected)
unfolding handle_close
close_move c c' h = ground arith

open_may_close : (s t : State) → is_open s ≡ true → t ≡ disconnected → may_move s t ≡ true
open_may_close disconnected t h e = cc
open_may_close connecting t h e = cc
open_may_close disconnecting t h e = rw e
open_may_close connected t h e = rw e

read_move :
    (i : Incoming) (c c' : Connection)
    → handle_read i c ≡ some c'
    → may_move c.state c'.state ≡ true
unfolding handle_read
read_move i c c' h = elim (Option-cases (read_fd i c.input)) [
  | inl e ↦ absurd (ground (arith, e, h))
  | inr (p, e) ↦ ground (
    arith,
    e,
    h,
    close_move (record c { input = p.1 }) c',
    open_may_close c.state c'.state,
    may_move_refl c.state,
  )
]

-- Every call that passes its assertions makes one of these changes of state or none.
pub step-may_move :
    (e : Event) (c c' : Connection) → step e c ≡ some c' → may_move c.state c'.state ≡ true
unfolding step connect_established send shutdown handle_write connect_destroyed force_close
    force_close_in_loop
step-may_move establish c c' h = ground arith
step-may_move close_event c c' h =
    let (o, d) = close_move c c' h in open_may_close c.state c'.state o d
step-may_move destroy c c' h = ground (arith, may_move_refl c.state)
step-may_move force c c' h = ground (arith, may_move_refl c.state)
step-may_move force_run c c' h =
    ground (arith, may_move_refl c.state, close_move c c', open_may_close c.state c'.state)
step-may_move (shut in_loop) c c' h = ground (arith, may_move_refl c.state)
step-may_move (transmit in_loop w bytes) c c' h =
    ground (arith, may_move_refl c.state, state-send_in_loop w bytes c c')
step-may_move (readable i) c c' h = read_move i c c' h
step-may_move (writable w) c c' h = ground (arith, may_move_refl c.state)

unfoldable pub run : List Event → Connection → Option Connection
run [] c = some c
run (e ∷ es) c = do c' ← step e c; run es c'

pub rank : State → ℕ
rank connecting = 0
rank connected = 1
rank disconnecting = 2
rank disconnected = 3

move_up : (s t : State) → may_move s t ≡ true → rank s ≤ rank t
unfolding rank
move_up connecting connecting h = omega arith
move_up connecting connected h = omega arith
move_up connecting disconnecting h = cc
move_up connecting disconnected h = cc
move_up connected connected h = omega arith
move_up connected disconnecting h = omega arith
move_up connected disconnected h = omega arith
move_up connected connecting h = cc
move_up disconnecting disconnecting h = omega arith
move_up disconnecting disconnected h = omega arith
move_up disconnecting connecting h = cc
move_up disconnecting connected h = cc
move_up disconnected disconnected h = omega arith
move_up disconnected connecting h = cc
move_up disconnected connected h = cc
move_up disconnected disconnecting h = cc

-- How often a history establishes the connection, and how often it may.
abbrev once : Event → ℕ
once establish = 1
once _ = 0

abbrev pub established_in : List Event → ℕ
established_in [] = 0
established_in (e ∷ es) = once e + established_in es

abbrev pub may_establish : State → ℕ
may_establish connecting = 1
may_establish connected = 0
may_establish disconnecting = 0
may_establish disconnected = 0

move-may_establish : (s t : State) → may_move s t ≡ true → may_establish t ≤ may_establish s
move-may_establish connecting connecting h = omega arith
move-may_establish connecting connected h = omega arith
move-may_establish connecting disconnecting h = omega arith
move-may_establish connecting disconnected h = omega arith
move-may_establish connected connecting h = cc
move-may_establish connected connected h = omega arith
move-may_establish connected disconnecting h = omega arith
move-may_establish connected disconnected h = omega arith
move-may_establish disconnecting connecting h = cc
move-may_establish disconnecting connected h = omega arith
move-may_establish disconnecting disconnecting h = omega arith
move-may_establish disconnecting disconnected h = omega arith
move-may_establish disconnected connecting h = cc
move-may_establish disconnected connected h = omega arith
move-may_establish disconnected disconnecting h = omega arith
move-may_establish disconnected disconnected h = omega arith

establish_move :
    (c c' : Connection)
    → connect_established c ≡ some c'
    → (may_establish c.state ≡ 1) × (may_establish c'.state ≡ 0)
unfolding connect_established
establish_move c c' h = ground arith

once-may_establish :
    (e : Event) (c d : Connection)
    → step e c ≡ some d
    → once e + may_establish d.state ≤ may_establish c.state
unfolding step
once-may_establish establish c d h =
    omega (arith, (establish_move c d h).0, (establish_move c d h).1)
once-may_establish close_event c d h =
    omega (arith, move-may_establish c.state d.state (step-may_move close_event c d h))
once-may_establish destroy c d h =
    omega (arith, move-may_establish c.state d.state (step-may_move destroy c d h))
once-may_establish force c d h =
    omega (arith, move-may_establish c.state d.state (step-may_move force c d h))
once-may_establish force_run c d h =
    omega (arith, move-may_establish c.state d.state (step-may_move force_run c d h))
once-may_establish (shut in_loop) c d h =
    omega (arith, move-may_establish c.state d.state (step-may_move (shut in_loop) c d h))
once-may_establish (transmit in_loop w bytes) c d h =
    omega
      (arith, move-may_establish c.state d.state (step-may_move (transmit in_loop w bytes) c d h))
once-may_establish (readable i) c d h =
    omega (arith, move-may_establish c.state d.state (step-may_move (readable i) c d h))
once-may_establish (writable w) c d h =
    omega (arith, move-may_establish c.state d.state (step-may_move (writable w) c d h))

-- Over any history that passes its assertions the state only goes forward: connecting, connected,
-- disconnecting, disconnected, so that a closed connection never comes back; and a connection is
-- established at most once, and only while it is connecting.
pub rank-run :
    (es : List Event) (c c' : Connection)
    → run es c ≡ some c'
    → (rank c.state ≤ rank c'.state) × (established_in es ≤ may_establish c.state)
unfolding run
rank-run [] c c' h = let e : c ≡ c' = cc h in (rw e (omega arith), omega arith)
rank-run (e ∷ es) c c' h =
    let (d, p, q) = >>=-eq-some (step e c) (run es) h in
    let (up, later) = rank-run es d c' q in
    let m = step-may_move e c d p in
    (omega (arith, move_up c.state d.state m, up), omega (arith, later, once-may_establish e c d p))
