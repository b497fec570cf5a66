-- ===== src/Tcp/Connection/Sends.antt =====
-- What `send` and `shutdown` do to the outgoing bytes when the loop calls them.
use talib.Prelude.{
  ◌≡◌, refl, ap, ◌∙◌, inl, inr, true, false, some, [], ◌∷◌, ◌++◌, append-nil, Bool-cases, length,
}
use talib.Buffer.{Buffer, content, retrieve_all}
use talib.Buffer.Space.{Fits}
use talib.Reactor.Channel.{is_writing}
use talib.Tcp.Connection.{
  Connection, State, connected, disconnected, disconnecting, connecting, shuts_write, Written,
  is_fault, is_connected, is_disconnected, send_buffer, shutdown, shutdown_in_loop,
}
use talib.Tcp.Connection.Stream.{Adds, stream, sent, sent-append, send_in_loop-Adds}

connected_open : (s : State) → is_connected s ≡ true → is_disconnected s ≡ false
connected_open connected h = refl
connected_open disconnected h = cc
connected_open connecting h = cc
connected_open disconnecting h = cc

pub send_buffer-Adds :
    (w : Written) (message : Buffer) (c : Connection)
    → is_connected c.state ≡ true
    → is_fault w ≡ false
    → Fits (length (content message)) c.output
    → (c' : Connection) × (send_buffer true w message c ≡ some (retrieve_all message, c'))
      × Adds (content message) c c'
unfolding send_buffer
send_buffer-Adds w message c o f h =
    let (c', e, a) = send_in_loop-Adds w (content message) c (connected_open c.state o) f h in
    (c', rw (o, send_buffer) (rw e refl), a)

pub stream-shutdown :
    (c : Connection) → (stream (shutdown true c) ≡ stream c) × ((shutdown true c).input ≡ c.input)
unfolding shutdown shutdown_in_loop
stream-shutdown c = elim (Bool-cases (is_connected c.state)) [
  | inl o ↦ elim (Bool-cases (is_writing c.channel).0) [
    | inl w ↦ (
      rw (o, shutdown, shutdown_in_loop) (rw w refl),
      rw (o, shutdown, shutdown_in_loop) (rw w refl),
    )
    | inr w ↦ (
      rw (o, shutdown, shutdown_in_loop)
          (rw w (
            ap (λ z. z ++ content c.output)
              (sent-append c.effects (shuts_write ∷ []) ∙ append-nil (sent c.effects)))),
      rw (o, shutdown, shutdown_in_loop) (rw w refl),
    )
  ]
  | inr o ↦ (rw (o, shutdown) refl, rw (o, shutdown) refl)
]
