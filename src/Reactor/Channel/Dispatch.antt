-- ===== src/Reactor/Channel/Dispatch.antt =====
-- Which callbacks an event makes.
use talib.Prelude.{ℕ, ◌+◌, ◌≤◌, ◌≡◌, Bool, false, not, ◌&&◌, ◌||◌, List, [], ◌∷◌, ◌++◌, arith, ◌==◌}
use talib.Reactor.Channel.{
  Channel, CallBack, close_call, error_call, read_call, write_call, handle_event, call_if,
}

abbrev pub rank : CallBack → ℕ
rank close_call = 0
rank error_call = 1
rank read_call = 2
rank write_call = 3

-- Rising ranks: each callback at most once, in the order close, error, read, write.
abbrev pub InOrder : ℕ → List CallBack → Type 0
InOrder n [] = Unit
InOrder n (k ∷ ks) = (n ≤ rank k) × InOrder (rank k + 1) ks

abbrev pub calls : CallBack → List CallBack → Bool
calls k [] = false
calls k (j ∷ ks) = rank j == rank k || calls k ks

-- The dispatch makes each callback at most once, in the order close, error, read, write, and makes
-- exactly these: close on a hang-up with nothing to read, error on an error, read on input, urgent
-- input or the peer's half close, write on room for output; each only if it is set.
pub handle_event_lem :
    (c : Channel)
    → InOrder 0 (handle_event c)
      × (calls close_call (handle_event c)
          ≡ (c.revents.pollhup && not c.revents.pollin && c.has_close))
      × (calls error_call (handle_event c) ≡ (c.revents.pollerr && c.has_error))
      × (calls read_call (handle_event c)
          ≡ ((c.revents.pollin || c.revents.pollpri || c.revents.pollrdhup) && c.has_read))
      × (calls write_call (handle_event c) ≡ (c.revents.pollout && c.has_write))
unfolding handle_event
handle_event_lem c =
    go (c.revents.pollhup && not c.revents.pollin && c.has_close) (c.revents.pollerr && c.has_error)
      ((c.revents.pollin || c.revents.pollpri || c.revents.pollrdhup) && c.has_read)
      (c.revents.pollout && c.has_write)
  where
    go :
        (a b d e : Bool)
        → let ks =
            call_if a close_call
            ++ (call_if b error_call ++ (call_if d read_call ++ call_if e write_call)) in
          InOrder 0 ks
          × (calls close_call ks ≡ a)
          × (calls error_call ks ≡ b)
          × (calls read_call ks ≡ d)
          × (calls write_call ks ≡ e)
    go a b d e = ground arith
