-- ===== src/Reactor/Channel/Masks.antt =====
-- The interest of a channel: what enabling, disabling and testing do to it.
use talib.Prelude.{◌≡◌, Bool, true, false, not, ◌||◌, arith}
use talib.Reactor.Channel.{
  Mask, Channel, write_event, is_none_event, enable_reading, disable_reading, enable_writing,
  disable_writing, disable_all, is_writing,
}

-- The masks that the methods build: the two read bits together, and the write bit.
pub record IsInterest (m : Mask) : Type 0 where
  pub read_bits : m.pollpri ≡ m.pollin
  pub no_hup : m.pollhup ≡ false
  pub no_rdhup : m.pollrdhup ≡ false
  pub no_err : m.pollerr ≡ false

pub data Change : Type 0 where
  reading_on reading_off writing_on writing_off all_off : Change

pub change : Change → Channel → Channel
change reading_on = enable_reading
change reading_off = disable_reading
change writing_on = enable_writing
change writing_off = disable_writing
change all_off = disable_all

abbrev wants_read : Change → Bool → Bool
wants_read reading_on _ = true
wants_read reading_off _ = false
wants_read all_off _ = false
wants_read _ before = before

abbrev wants_write : Change → Bool → Bool
wants_write writing_on _ = true
wants_write writing_off _ = false
wants_write all_off _ = false
wants_write _ before = before

-- Each change sets or clears its own direction and leaves the other, and the channel waits for
-- nothing exactly when both directions are off.
pub change_lem :
    (k : Change) (c : Channel)
    → IsInterest c.events
    → IsInterest (change k c).events
      × ((change k c).events.pollin ≡ wants_read k c.events.pollin)
      × ((change k c).events.pollout ≡ wants_write k c.events.pollout)
      × (is_none_event (change k c)
          ≡ not (wants_read k c.events.pollin || wants_write k c.events.pollout))
unfolding change enable_reading disable_reading enable_writing disable_writing disable_all
    is_none_event
change_lem reading_on c h = ground arith
change_lem reading_off c h = ground arith
change_lem writing_on c h = ground arith
change_lem writing_off c h = ground arith
change_lem all_off c h = ground arith

-- The test for writing answers by the write bit, but clears the read bits on the way: a channel that
-- was waiting to read no longer does, and enabling writing after it leaves only the write bit.
pub is_writing_clears :
    (c : Channel)
    → IsInterest c.events
    → ((is_writing c).0 ≡ c.events.pollout)
      × ((is_writing c).1.events.pollin ≡ false)
      × ((is_writing c).1.events.pollout ≡ c.events.pollout)
      × ((enable_writing (is_writing c).1).events ≡ write_event)
unfolding is_writing enable_writing
is_writing_clears c h = ground arith
