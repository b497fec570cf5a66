-- ===== src/Reactor/Tests.antt =====
-- A channel and a poller, for src/Reactor/Channel.h and src/Socket/Epoll.cpp.
use talib.Prelude.{◌≡◌, refl, true, false, none}
use talib.Reactor.Channel.{
  Channel, read_event, close_call, error_call, read_call, write_call, handle_event,
}
use talib.Reactor.Channel.Masks.{IsInterest}
use talib.Reactor.Channel.Dispatch.{InOrder, calls, handle_event_lem}

-- A channel that waits to read.
abbrev reader : Channel
reader = record {
  fd = 5;
  events = read_event;
  revents = record read_event { pollhup = true };
  index = none;
  added_to_loop = true;
  has_read = true;
  has_write = false;
  has_error = false;
  has_close = true;
}

reader-IsInterest : IsInterest reader.events
reader-IsInterest = record { read_bits = refl; no_hup = refl; no_rdhup = refl; no_err = refl }

handle_event_lem_example :
    InOrder 0 (handle_event reader)
    × (calls close_call (handle_event reader) ≡ false)
    × (calls error_call (handle_event reader) ≡ false)
    × (calls read_call (handle_event reader) ≡ true)
    × (calls write_call (handle_event reader) ≡ false)
handle_event_lem_example = handle_event_lem reader
