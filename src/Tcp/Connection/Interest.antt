-- ===== src/Tcp/Connection/Interest.antt =====
-- What a connection waits for, and which events reach it.
use talib.Prelude.{
  bytes, ℕ, ◌-◌, ◌<◌, ◌≡◌, refl, sym, ◌∙◌, inl, inr, true, false, some, List, [], ◌∷◌, arith,
  Option-cases, >>=-eq-some, length, drop,
}
use talib.Buffer.{Incoming, read_fd}
use talib.Reactor.Channel.{
  new_channel, Mask, write_call, write_event, disable_all, disable_writing, enable_reading,
  enable_writing, is_writing, handle_event,
}
use talib.Reactor.Channel.Masks.{IsInterest}
use talib.Reactor.Channel.Dispatch.{calls, handle_event_lem}
use talib.Tcp.Connection.{
  Connection, Written, taken, is_fault, is_disconnected, keep_rest, update, new_connection,
  connect_established, send, send_in_loop, shutdown, shutdown_in_loop, handle_close, handle_read,
  handle_write, connect_destroyed, force_close, force_close_in_loop,
}
use talib.Tcp.Connection.Stream.{tested, wrote, is_direct, send_direct_part}
use talib.Tcp.Connection.States.{
  Event, establish, close_event, destroy, force, force_run, shut, transmit, readable, writable,
  step, run,
}

-- A send that the socket takes only in part ends the reading: when it returns, the channel waits for
-- room to write and for nothing else, although it was waiting for input before.
pub partial_send_stops_reading :
    (w : Written) (bytes : List ℕ) (c c' : Connection)
    → is_disconnected c.state ≡ false
    → is_fault w ≡ false
    → IsInterest c.channel.events
    → is_direct c ≡ true
    → 0 < length bytes - taken w
    → send_in_loop w bytes c ≡ some c'
    → c'.channel.events ≡ write_event
unfolding keep_rest update is_writing enable_writing
partial_send_stops_reading w bytes c c' o f i d r h =
    let k : keep_rest (drop (taken w) bytes) (wrote w bytes c) ≡ some c' =
      sym (send_direct_part w bytes c o d f r) ∙ h in
    ground (arith, k, i.read_bits, i.no_hup, i.no_rdhup, i.no_err)

write-keep_rest :
    (bytes : List ℕ) (c c' : Connection)
    → keep_rest bytes c ≡ some c'
    → c'.channel.has_write ≡ c.channel.has_write
unfolding keep_rest update is_writing enable_writing
write-keep_rest bytes c c' h = ground arith

write-send_in_loop :
    (w : Written) (bytes : List ℕ) (c c' : Connection)
    → send_in_loop w bytes c ≡ some c'
    → c'.channel.has_write ≡ c.channel.has_write
unfolding send_in_loop is_writing
write-send_in_loop w bytes c c' h = ground (
  arith,
  write-keep_rest (drop (taken w) bytes) (wrote w bytes c) c',
  write-keep_rest bytes (tested c) c',
)

write-handle_close :
    (c c' : Connection) → handle_close c ≡ some c' → c'.channel.has_write ≡ c.channel.has_write
unfolding handle_close update disable_all
write-handle_close c c' h = ground arith

write-handle_read :
    (i : Incoming) (c c' : Connection)
    → handle_read i c ≡ some c'
    → c'.channel.has_write ≡ c.channel.has_write
unfolding handle_read
write-handle_read i c c' h = elim (Option-cases (read_fd i c.input)) [
  | inl e ↦ absurd (ground (arith, e, h))
  | inr (p, e) ↦ ground (arith, e, h, write-handle_close (record c { input = p.1 }) c')
]

write-handle_write :
    (w : Written) (c c' : Connection)
    → handle_write w c ≡ some c'
    → c'.channel.has_write ≡ c.channel.has_write
unfolding handle_write update is_writing disable_writing
write-handle_write w c c' h = ground arith

write-step :
    (e : Event) (c c' : Connection)
    → step e c ≡ some c'
    → c'.channel.has_write ≡ c.channel.has_write
unfolding step connect_established send shutdown shutdown_in_loop update is_writing enable_reading
    disable_all connect_destroyed force_close force_close_in_loop
write-step establish c c' h = ground arith
write-step close_event c c' h = write-handle_close c c' h
write-step destroy c c' h = ground arith
write-step force c c' h = ground arith
write-step force_run c c' h = ground (arith, write-handle_close c c')
write-step (shut in_loop) c c' h = ground arith
write-step (transmit in_loop w bytes) c c' h = ground (arith, write-send_in_loop w bytes c c')
write-step (readable i) c c' h = write-handle_read i c c' h
write-step (writable w) c c' h = write-handle_write w c c' h

write-run :
    (es : List Event) (c c' : Connection)
    → run es c ≡ some c'
    → c'.channel.has_write ≡ c.channel.has_write
unfolding run
write-run [] c c' h = let e : c ≡ c' = cc h in rw e refl
write-run (e ∷ es) c c' h =
    let (d, p, q) = >>=-eq-some (step e c) (run es) h in write-run es d c' q ∙ write-step e c d p

-- No callback for writing is ever set: after any history, and whatever events the poller reports,
-- the dispatch does not call the write handler, so nothing empties the output buffer.
pub write_handler_unreachable :
    (fd : ℕ) (es : List Event) (c : Connection) (happened : Mask)
    → run es (new_connection fd) ≡ some c
    → calls write_call (handle_event (record c.channel { revents = happened })) ≡ false
unfolding new_connection new_channel
write_handler_unreachable fd es c happened h = ground (
  arith,
  (handle_event_lem (record c.channel { revents = happened })).4,
  write-run es (new_connection fd) c h,
)
