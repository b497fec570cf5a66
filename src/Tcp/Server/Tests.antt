-- ===== src/Tcp/Server/Tests.antt =====
-- A server of two threads with three connections.
use talib.Prelude.{
  ◌>>=◌, bytes, ℕ, ◌+◌, ◌≡◌, refl, true, false, some, List, [], ◌∷◌, find, insert, erase, arith,
}
use talib.Reactor.ThreadPool.{start, start_loops, get_next_loop}
use talib.Reactor.ThreadPool.RoundRobin.{at_turn}
use talib.Tcp.Server.{
  listens, establishes, removes, destroys, closes, TcpServer, accepted, table_full, start_listen,
  emit, connection_name, new_connection, handle_read, remove_connection, remove_connection_in_loop,
  close_any,
}
use talib.Tcp.Server.Accepts.{accept_all, accept_all_lem, serving, registered_all}

abbrev loop_of : ℕ → ℕ
loop_of i = 40 + i

abbrev server : TcpServer
server = record {
  name = bytes "S";
  loop = 9;
  thread_pool = record { base_loop = 9; started = false; num_threads = 2; next = 0; loops = [] };
  listening = false;
  idle_fd = 3;
  has_close_call_back = false;
  next_conn_id = 1;
  connections = [];
  effects = [];
}

abbrev three : List (ℕ × ℕ)
three = (100, 5) ∷ (200, 6) ∷ (300, 7) ∷ []

accept_all_lem_example :
    accept_all three (serving server loop_of 1 0 [] [])
    ≡ some (
        serving server loop_of 1 3
          (registered_all (bytes "S") loop_of 1 0 three [])
          (establishes 40 100 ∷ establishes 41 200 ∷ establishes 40 300 ∷ []))
accept_all_lem_example = accept_all_lem server loop_of 1 0 [] [] three (omega arith)

-- A server that has just begun to listen is at its first turn.
begun :
    start_listen loop_of server
    ≡ some (record (serving server loop_of 1 0 [] (listens ∷ [])) { listening = true })
unfolding start_listen start start_loops emit at_turn
begun = refl

-- A full table of descriptors costs the connection, not the server; and one that left is removed.
refused_and_removed :
    (do
      s ← handle_read 100 (accepted 5) (serving server loop_of 1 0 [] [])
      s' ← handle_read 200 (table_full (some 8) 4) s
      s'' ← remove_connection false 100 s'
      remove_connection_in_loop 100 s'')
    ≡ some
        (record (serving server loop_of 1 1 []
          (establishes 40 100 ∷ closes 3 ∷ closes 8 ∷ removes 100 ∷ destroys 40 100 ∷ [])) {
            idle_fd = 4;
          })
unfolding handle_read new_connection emit connection_name close_any remove_connection
    remove_connection_in_loop at_turn get_next_loop start_loops insert erase find
refused_and_removed = refl
