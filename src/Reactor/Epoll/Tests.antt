-- ===== src/Reactor/Epoll/Tests.antt =====
-- A poller with one channel, for src/Socket/Epoll.cpp.
use talib.Prelude.{◌≡◌, refl, true, false, none, some, [], ◌∷◌, find, insert, erase}
use talib.Reactor.Channel.{Channel, read_event, none_event, set_index, is_none_event}
use talib.Reactor.Epoll.{Epoll, add, delete, new_epoll, update_channel, remove_channel}
use talib.Reactor.Epoll.Kernel.{
  IsSynced, new_epoll-IsSynced, update_channel-IsSynced, remove_channel-IsSynced,
}

abbrev idle : Channel
idle = record {
  fd = 5;
  events = none_event;
  revents = none_event;
  index = none;
  added_to_loop = true;
  has_read = true;
  has_write = false;
  has_error = false;
  has_close = true;
}

abbrev reader : Channel
reader = record idle { events = read_event }

abbrev watching : Channel → Epoll
watching c = record {
  max_events_size = 1;
  capacity = 1024;
  channels = (5, set_index 1 c) ∷ [];
  calls = add 5 c.events ∷ [];
}

abbrev emptied : Epoll
emptied = record {
  max_events_size = 0;
  capacity = 1024;
  channels = [];
  calls = delete 5 ∷ add 5 none_event ∷ [];
}

update_idle : update_channel idle new_epoll ≡ some (set_index 1 idle, watching idle)
unfolding update_channel new_epoll find insert
update_idle = refl

update_reader : update_channel reader new_epoll ≡ some (set_index 1 reader, watching reader)
unfolding update_channel new_epoll find insert
update_reader = refl

remove_idle : remove_channel (set_index 1 idle) (watching idle) ≡ some emptied
unfolding remove_channel find erase is_none_event
remove_idle = refl

update_channel-IsSynced_example :
    ((watching reader).calls ≡ add 5 read_event ∷ [])
    × IsSynced (watching reader) (insert 5 read_event [])
unfolding insert new_epoll
update_channel-IsSynced_example =
    update_channel-IsSynced reader new_epoll [] (set_index 1 reader, watching reader)
      new_epoll-IsSynced update_reader

watching-IsSynced : IsSynced (watching idle) (insert 5 none_event [])
watching-IsSynced =
    (update_channel-IsSynced idle new_epoll [] (set_index 1 idle, watching idle) new_epoll-IsSynced
      update_idle).1

remove_channel-IsSynced_example :
    (emptied.calls ≡ delete 5 ∷ add 5 none_event ∷ [])
    × IsSynced emptied (erase 5 (insert 5 none_event []))
unfolding insert erase
remove_channel-IsSynced_example =
    remove_channel-IsSynced (set_index 1 idle) (watching idle) emptied (insert 5 none_event [])
      watching-IsSynced remove_idle
