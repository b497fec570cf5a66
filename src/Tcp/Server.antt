-- ===== src/Tcp/Server.antt =====
-- src/Tcp/TcpServer.h, TcpServer.cpp and src/Reactor/Acceptor.cpp: the connections of a server. A
-- connection is known by its address, a loop by a number; what is left to a loop is recorded in order,
-- with what is done to descriptors. The callers are in the server's own loop; `none` is a failed
-- assertion.
pub mod Accepts
pub mod Removal
mod Tests
use talib.Prelude.{
  decimal, bytes, ℕ, ◌+◌, Bool, true, not, Option, none, some, List, [], ◌∷◌, ◌++◌, if◌then◌else◌,
  ◌>>=◌, ◌>>◌, assert, find, insert, erase, ltb,
}
use talib.Reactor.ThreadPool.{EventLoopThreadPool, start, get_next_loop, set_thread_num}

pub record Connection : Type 0 where
  pub name : List ℕ
  pub sockfd : ℕ
  pub loop : ℕ

pub data Effect : Type 0 where
  establishes : ℕ → ℕ → Effect
  removes : ℕ → Effect
  destroys : ℕ → ℕ → Effect
  calls_close : ℕ → Effect
  closes : ℕ → Effect
  listens : Effect

-- `idle_fd` is the descriptor that the acceptor keeps in reserve.
pub record TcpServer : Type 0 where
  pub name : List ℕ
  pub loop : ℕ
  pub thread_pool : EventLoopThreadPool
  pub listening : Bool
  pub idle_fd : ℕ
  pub has_close_call_back : Bool
  pub next_conn_id : ℕ
  pub connections : List (ℕ × Connection)
  pub effects : List Effect

unfoldable pub emit : Effect → TcpServer → TcpServer
emit e s = record s { effects = s.effects ++ e ∷ [] }

unfoldable pub set_thread_num_of : ℕ → TcpServer → TcpServer
unfolding set_thread_num
set_thread_num_of n s = record s { thread_pool = set_thread_num n s.thread_pool }

-- The acceptor listens at once, as the caller is in its loop.
unfoldable pub start_listen : (ℕ → ℕ) → TcpServer → Option TcpServer
unfolding emit
start_listen start_loop s = do
  assert (not s.listening)
  pool ← start true start_loop s.thread_pool
  some (emit listens (record s { thread_pool = pool; listening = true }))

-- `snprintf` of the number needs at most 12 of its 64 bytes.
unfoldable pub connection_name : TcpServer → List ℕ
connection_name s = s.name ++ (bytes "#" ++ decimal s.next_conn_id)

-- INT_MAX: `++` on an `int` that has it is undefined.
abbrev pub int_max : ℕ
int_max = 2147483647

-- `new` has given the address.
unfoldable pub new_connection : ℕ → ℕ → TcpServer → Option TcpServer
unfolding emit connection_name
new_connection conn sockfd s = do
  assert (ltb s.next_conn_id int_max)
  (loop, pool) ← get_next_loop true s.thread_pool
  let c : Connection = record { name = connection_name s; sockfd = sockfd; loop = loop }
  some (
      emit (establishes loop conn) (record s {
        thread_pool = pool;
        next_conn_id = s.next_conn_id + 1;
        connections = insert conn c s.connections;
      }))

-- From the loop of the connection; the own loop runs it at once.
unfoldable pub remove_connection_in_loop : ℕ → TcpServer → Option TcpServer
unfolding emit
remove_connection_in_loop conn s = do
  c ← find conn s.connections
  let s1 : TcpServer = record s { connections = erase conn s.connections }
  let s2 = if s1.has_close_call_back then emit (calls_close conn) s1 else s1
  some (emit (destroys c.loop conn) s2)

unfoldable pub remove_connection : Bool → ℕ → TcpServer → Option TcpServer
unfolding emit remove_connection_in_loop
remove_connection in_loop_thread conn s =
    if in_loop_thread then remove_connection_in_loop conn s else some (emit (removes conn) s)

-- What `accept` returns: a descriptor, or an error, where with the table of descriptors full the
-- kernel's next answers are an accepted descriptor, if any, and that of the file opened in its place.
pub data Accepted : Type 0 where
  accepted : ℕ → Accepted
  table_full : Option ℕ → ℕ → Accepted
  failed : Accepted

unfoldable pub close_any : Option ℕ → TcpServer → TcpServer
unfolding emit
close_any none s = s
close_any (some fd) s = emit (closes fd) s

-- handleRead of the acceptor, whose callback is newConnetion.
unfoldable pub handle_read : ℕ → Accepted → TcpServer → Option TcpServer
unfolding new_connection emit close_any
handle_read conn (accepted fd) s = new_connection conn fd s
handle_read conn (table_full fd idle) s =
    some (record (close_any fd (emit (closes s.idle_fd) s)) { idle_fd = idle })
handle_read conn failed s = some s
