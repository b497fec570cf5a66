-- ===== src/Reactor/Epoll.antt =====
-- src/Socket/Epoll.h and Epoll.cpp: the poller of every loop. The calls of `epoll_ctl` are recorded
-- in order; what they mean to the kernel is in `Kernel`. `none` is a failed assertion.
pub mod Kernel
mod Tests
use Prim.Native.Nat.{max}
use talib.Prelude.{
  ℕ, ◌+◌, ◌-◌, ◌*◌, min, Bool, true, false, not, Option, none, some, List, [], ◌∷◌, ◌==◌,
  if◌then◌else◌, ◌>>=◌, ◌>>◌, assert, find, insert, erase,
}
use talib.Reactor.Channel.{Mask, Channel, set_index, set_revents, is_none_event}

-- EPOLL_CTL_ADD, EPOLL_CTL_MOD and EPOLL_CTL_DEL.
pub data Ctl : Type 0 where
  add modify : ℕ → Mask → Ctl
  delete : ℕ → Ctl

abbrev pub max_epoll_concurrency_size : ℕ
max_epoll_concurrency_size = 10000

abbrev pub init_epoll_events_size : ℕ
init_epoll_events_size = 1024

-- `channels` maps a descriptor to its channel, `capacity` is that of the event array, and `calls`
-- are the calls of `epoll_ctl`, newest first.
pub record Epoll : Type 0 where
  pub max_events_size : ℕ
  pub capacity : ℕ
  pub channels : List (ℕ × Channel)
  pub calls : List Ctl

pub new_epoll : Epoll
new_epoll = record {
  max_events_size = 0;
  capacity = init_epoll_events_size;
  channels = [];
  calls = [];
}

abbrev pub is_absent : Option Channel → Bool
is_absent none = true
is_absent (some c) = false

-- The growth of the event array: `reserve` never shrinks.
grow : Epoll → Epoll
grow e =
    if e.max_events_size + 1 == e.capacity
    then record e { capacity = max e.capacity (min (2 * e.capacity) max_epoll_concurrency_size) }
    else e

-- The map holds the channel itself, so it is stored again with every change of its fields.
pub update_channel : Channel → Epoll → Option (Channel × Epoll)
unfolding grow
update_channel c e = elim c.index [
  | none ↦ do
    assert (is_absent (find c.fd e.channels))
    let c' : Channel = set_index (e.max_events_size + 1) c
    some (
      c',
      grow (record e {
        max_events_size = e.max_events_size + 1;
        channels = insert c.fd c' e.channels;
        calls = add c.fd c.events ∷ e.calls;
      }),
    )
  | some i ↦ do
    assert (not (is_absent (find c.fd e.channels)))
    some (
      c,
      grow (record e {
        channels = insert c.fd c e.channels;
        calls = modify c.fd c.events ∷ e.calls;
      }),
    )
]

-- The index of the channel stays as it is.
pub remove_channel : Channel → Epoll → Option Epoll
remove_channel c e = do
  assert (not (is_absent (find c.fd e.channels)))
  assert (is_none_event c)
  some (record e {
    max_events_size = e.max_events_size - 1;
    channels = erase c.fd e.channels;
    calls = delete c.fd ∷ e.calls;
  })

-- The loop of `fillActiveChannels` over what `epoll_wait` filled in.
pub fill_active_channels : List (ℕ × Mask) → Epoll → Option (List Channel × Epoll)
fill_active_channels [] e = some ([], e)
fill_active_channels ((fd, m) ∷ rest) e = do
  c ← find fd e.channels
  assert (c.fd == fd)
  let c' : Channel = set_revents m c
  (active, e') ← fill_active_channels rest (record e { channels = insert fd c' e.channels })
  some (c' ∷ active, e')
