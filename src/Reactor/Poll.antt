-- ===== src/Reactor/Poll.antt =====
-- src/Reactor/Poll.h and Poll.cpp: the poller over `poll`. The channels stand in a map by their
-- descriptors, and a channel's index is that of its `pollfd`. `none` is a failed assertion, or the use
-- of a null pointer; what `poll` writes to `revents` is an argument.

pub mod Active
mod Tests
use talib.Prelude.{
  ℕ, zero, suc, ◌+◌, ◌-◌, Bool, true, false, not, ◌&&◌, ◌||◌, Option, none, some, List, [], ◌∷◌,
  ◌++◌, ◌==◌, if◌then◌else◌, ◌>>=◌, ◌>>◌, assert, length, get_elem?, take, find, insert, erase, ℤ,
  pos, negsuc,
}
use talib.Prelude.{set}
use talib.Reactor.Channel.{
  Mask, Channel, none_event, any_bit, set_index, set_revents, is_none_event,
}

-- `fd` is -1 where the kernel is to ignore the entry.
pub record PollFd : Type 0 where
  pub fd : ℤ
  pub events : Mask
  pub revents : Mask

pub record Poll : Type 0 where
  pub pollfds : List PollFd
  pub channels : List (ℕ × Channel)

abbrev pub new_poll : Poll
new_poll = record { pollfds = []; channels = [] }

abbrev pub ignored : ℤ
ignored = negsuc 0

-- `a == b`.
abbrev pub same_fd : ℤ → ℤ → Bool
same_fd (pos a) (pos b) = a == b
same_fd (negsuc a) (negsuc b) = a == b
same_fd (pos a) (negsuc b) = false
same_fd (negsuc a) (pos b) = false

abbrev pub is_absent : Option Channel → Bool
is_absent none = true
is_absent (some c) = false

-- The map holds the channel itself, so it is stored again with every change of its fields.
unfoldable pub update_channel : Channel → Poll → Option (Channel × Poll)
update_channel c p = elim c.index [
  | none ↦ do
    assert (is_absent (find c.fd p.channels))
    let c' = set_index (length p.pollfds) c
    let pfd : PollFd = record { fd = pos c.fd; events = c.events; revents = none_event }
    some (c', record { pollfds = p.pollfds ++ pfd ∷ []; channels = insert c.fd c' p.channels })
  | some idx ↦ do
    assert (not (is_absent (find c.fd p.channels)))
    pfd ← get_elem? p.pollfds idx
    assert (same_fd pfd.fd (pos c.fd) || same_fd pfd.fd ignored)
    let fd' = if is_none_event c then ignored else pfd.fd
    let pfd' : PollFd = record { fd = fd'; events = c.events; revents = none_event }
    some (c, record { pollfds = set p.pollfds idx pfd'; channels = insert c.fd c p.channels })
]

-- The descriptor that an entry stands for, as `removeChannel` reads it back.
abbrev pub channel_at : ℤ → ℕ
channel_at (pos fd) = fd
channel_at (negsuc n) = n

-- The last entry takes the place of the one that is removed.
unfoldable pub remove_channel : Channel → Poll → Option Poll
remove_channel c p = do
  assert (not (is_absent (find c.fd p.channels)))
  assert (is_none_event c)
  idx ← c.index
  pfd ← get_elem? p.pollfds idx
  assert (same_fd pfd.fd ignored && not (any_bit pfd.events))
  let channels' = erase c.fd p.channels
  let kept = take (length p.pollfds - 1) p.pollfds
  let moved = do
    last ← get_elem? p.pollfds (length p.pollfds - 1)
    d ← find (channel_at last.fd) channels'
    some (record {
      pollfds = set kept idx last;
      channels = insert (channel_at last.fd) (set_index idx d) channels';
    })
  if length p.pollfds - 1 == idx
      then some (record { pollfds = kept; channels = channels' })
      else moved

unfoldable pub find_fd : ℤ → List (ℕ × Channel) → Option Channel
find_fd (pos fd) channels = find fd channels
find_fd (negsuc n) channels = none

-- The channels that are put into the list, with the events that happened, and the map.
unfoldable pub fill_active_channels :
    ℕ → List PollFd → List (ℕ × Channel) → Option (List Channel × List (ℕ × Channel))
unfolding find_fd
fill_active_channels num_events [] channels = some ([], channels)
fill_active_channels zero (pfd ∷ pollfds) channels = some ([], channels)
fill_active_channels (suc num_events) (pfd ∷ pollfds) channels =
    let later = fill_active_channels (suc num_events) pollfds channels in
    if any_bit pfd.revents
    then (do
      c ← find_fd pfd.fd channels
      assert (same_fd (pos c.fd) pfd.fd)
      let c' = set_revents pfd.revents c
      (active, channels') ← fill_active_channels num_events pollfds (insert c.fd c' channels)
      some (c' ∷ active, channels'))
    else later
