-- ===== src/Reactor/Channel.antt =====
-- src/Reactor/Channel.h and Channel.cpp: the events that a descriptor waits for, and the dispatch of
-- the events that happened. A mask is a record of its bits; an index of none is the index -1.
pub mod Masks
pub mod Dispatch
use talib.Prelude.{
  ℕ, ◌+◌, Bool, true, false, not, ◌&&◌, ◌||◌, Option, none, some, List, [], ◌∷◌, ◌++◌,
  if◌then◌else◌,
}

pub record Mask : Type 0 where
  pub pollin : Bool
  pub pollpri : Bool
  pub pollout : Bool
  pub pollhup : Bool
  pub pollrdhup : Bool
  pub pollerr : Bool

abbrev pub none_event : Mask
none_event = record {
  pollin = false;
  pollpri = false;
  pollout = false;
  pollhup = false;
  pollrdhup = false;
  pollerr = false;
}

abbrev pub read_event : Mask
read_event = record none_event { pollin = true; pollpri = true }

abbrev pub write_event : Mask
write_event = record none_event { pollout = true }

-- `a | b`, `a & b` and `a & ~b`.
abbrev pub mask_or : Mask → Mask → Mask
mask_or a b = record {
  pollin = a.pollin || b.pollin;
  pollpri = a.pollpri || b.pollpri;
  pollout = a.pollout || b.pollout;
  pollhup = a.pollhup || b.pollhup;
  pollrdhup = a.pollrdhup || b.pollrdhup;
  pollerr = a.pollerr || b.pollerr;
}

abbrev pub mask_and : Mask → Mask → Mask
mask_and a b = record {
  pollin = a.pollin && b.pollin;
  pollpri = a.pollpri && b.pollpri;
  pollout = a.pollout && b.pollout;
  pollhup = a.pollhup && b.pollhup;
  pollrdhup = a.pollrdhup && b.pollrdhup;
  pollerr = a.pollerr && b.pollerr;
}

abbrev pub mask_minus : Mask → Mask → Mask
mask_minus a b = record {
  pollin = a.pollin && not b.pollin;
  pollpri = a.pollpri && not b.pollpri;
  pollout = a.pollout && not b.pollout;
  pollhup = a.pollhup && not b.pollhup;
  pollrdhup = a.pollrdhup && not b.pollrdhup;
  pollerr = a.pollerr && not b.pollerr;
}

-- A mask as a condition: some bit is set.
abbrev pub any_bit : Mask → Bool
any_bit m = m.pollin || m.pollpri || m.pollout || m.pollhup || m.pollrdhup || m.pollerr

pub data CallBack : Type 0 where
  close_call error_call read_call write_call : CallBack

-- The fields of a channel; of a callback, whether it is set.
pub record Channel : Type 0 where
  pub fd : ℕ
  pub events : Mask
  pub revents : Mask
  pub index : Option ℕ
  pub added_to_loop : Bool
  pub has_read : Bool
  pub has_write : Bool
  pub has_error : Bool
  pub has_close : Bool

unfoldable pub new_channel : ℕ → Channel
new_channel fd = record {
  fd = fd;
  events = none_event;
  revents = none_event;
  index = none;
  added_to_loop = false;
  has_read = false;
  has_write = false;
  has_error = false;
  has_close = false;
}

abbrev pub set_revents : Mask → Channel → Channel
set_revents m c = record c { revents = m }

abbrev pub set_index : ℕ → Channel → Channel
set_index i c = record c { index = some i }

unfoldable pub is_none_event : Channel → Bool
is_none_event c = not (any_bit c.events)

-- The changes of the mask; each of these methods then calls `update`.
unfoldable pub enable_reading : Channel → Channel
enable_reading c = record c { events = mask_or c.events read_event }

unfoldable pub disable_reading : Channel → Channel
disable_reading c = record c { events = mask_minus c.events read_event }

unfoldable pub enable_writing : Channel → Channel
enable_writing c = record c { events = mask_or c.events write_event }

unfoldable pub disable_writing : Channel → Channel
disable_writing c = record c { events = mask_minus c.events write_event }

unfoldable pub disable_all : Channel → Channel
disable_all c = record c { events = none_event }

-- `return m_events &= kWriteEvent`: the test assigns to the mask that it tests.
unfoldable pub is_writing : Channel → Bool × Channel
is_writing c = let m = mask_and c.events write_event in (any_bit m, record c { events = m })

unfoldable pub is_reading : Channel → Bool × Channel
is_reading c = let m = mask_and c.events read_event in (any_bit m, record c { events = m })

abbrev call_if : Bool → CallBack → List CallBack
call_if b k = if b then k ∷ [] else []

-- The callbacks that `handleEvent` makes, in order.
pub handle_event : Channel → List CallBack
handle_event c =
    call_if (c.revents.pollhup && not c.revents.pollin && c.has_close) close_call
    ++ (call_if (c.revents.pollerr && c.has_error) error_call
        ++ (call_if ((c.revents.pollin || c.revents.pollpri || c.revents.pollrdhup) && c.has_read)
              read_call
            ++ call_if (c.revents.pollout && c.has_write) write_call))
