-- ===== src/Reactor/Poll/Tests.antt =====
-- Two channels of which one has an event, for src/Reactor/Poll.cpp.
use talib.Prelude.{ℕ, ◌≡◌, refl, true, false, none, some, List, [], ◌∷◌, find, insert, erase, pos}
use talib.Reactor.Channel.{Channel, read_event, none_event, set_index, is_none_event}
use talib.Reactor.Poll.{PollFd, Poll, ignored, remove_channel, find_fd, fill_active_channels}
use talib.Reactor.Poll.Active.{reported, fill_active_channels_lem}

abbrev reader : ℕ → Channel
reader fd = record {
  fd = fd;
  events = read_event;
  revents = none_event;
  index = none;
  added_to_loop = true;
  has_read = true;
  has_write = false;
  has_error = false;
  has_close = true;
}

abbrev idle : Channel
idle = record (reader 5) { events = none_event; index = some 0 }

abbrev pollfds : List PollFd
pollfds =
    record { fd = ignored; events = none_event; revents = none_event }
    ∷ record { fd = pos 6; events = read_event; revents = read_event }
    ∷ []

abbrev two : Poll
two = record { pollfds = pollfds; channels = (5, idle) ∷ (6, set_index 1 (reader 6)) ∷ [] }

fill_active_channels_lem_example :
    (active : List Channel) × (channels' : List (ℕ × Channel)) × (fill_active_channels 1 pollfds
        two.channels
      ≡ some (active, channels'))
    × (reported active ≡ (pos 6, read_event) ∷ [])
unfolding find_fd find
fill_active_channels_lem_example =
    fill_active_channels_lem pollfds two.channels 1 (refl, (refl, tt)) refl

-- The last entry moves to the place of the first, and the index of its channel with it.
removed :
    remove_channel idle two
    ≡ some (record {
      pollfds = record { fd = pos 6; events = read_event; revents = read_event } ∷ [];
      channels = (6, set_index 0 (reader 6)) ∷ [];
    })
unfolding remove_channel find erase insert is_none_event
removed = refl
