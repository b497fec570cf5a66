-- ===== src/Tcp/Connection.antt =====
-- src/Tcp/TcpConnection.h and TcpConnection.cpp: one connection, driven by its loop. What a method
-- does outside the object is recorded in order as effects; what the kernel answers is an argument.
-- `none` is a failed assertion.
pub mod Stream
pub mod States
pub mod Sends
pub mod Interest
mod Tests
use talib.Prelude.{
  bytes, ℕ, ◌+◌, ◌-◌, Bool, true, false, not, ◌&&◌, Option, some, List, [], ◌∷◌, ◌++◌, ltb, leb,
  ◌==◌, if◌then◌else◌, ◌>>=◌, ◌>>◌, assert, length, take, drop,
}
use talib.Buffer.{
  Buffer, Incoming, failed, received, new_buffer, initial_size, content, readable_bytes, append,
  retrieve, retrieve_all, read_fd,
}
use talib.Reactor.Channel.{
  Mask, Channel, new_channel, is_none_event, enable_reading, enable_writing, disable_writing,
  disable_all, is_writing,
}

pub data State : Type 0 where
  disconnected connecting disconnecting connected : State

-- What `write` answers: a count of bytes taken, or one of the error numbers that the code tells
-- apart.
pub data Written : Type 0 where
  took : ℕ → Written
  would_block broken_pipe conn_reset other_error : Written

-- Tasks for the loop that a call from another thread, or a forced close, leaves behind.
pub data Task : Type 0 where
  send_task : List ℕ → Task
  shutdown_task force_close_task : Task

pub data Effect : Type 0 where
  writes : List ℕ → Effect
  updates : Mask → Effect
  removes shuts_write connection_call message_call close_call : Effect
  queues : Task → Effect

pub record Connection : Type 0 where
  pub state : State
  pub channel : Channel
  pub input : Buffer
  pub output : Buffer
  pub effects : List Effect

abbrev emit : Effect → Connection → Connection
emit e c = record c { effects = c.effects ++ e ∷ [] }

-- `Channel::update` passes the channel's events to the poller.
update : Channel → Connection → Connection
update ch c = record c {
  channel = record ch { added_to_loop = true };
  effects = c.effects ++ updates ch.events ∷ [];
}

-- The constructor sets the callbacks for reading and for closing, and no other.
pub new_connection : ℕ → Connection
new_connection fd = record {
  state = connecting;
  channel = record (new_channel fd) { has_read = true; has_close = true };
  input = new_buffer initial_size;
  output = new_buffer initial_size;
  effects = [];
}

abbrev pub is_connected : State → Bool
is_connected connected = true
is_connected _ = false

abbrev is_connecting : State → Bool
is_connecting connecting = true
is_connecting _ = false

abbrev is_disconnected : State → Bool
is_disconnected disconnected = true
is_disconnected _ = false

abbrev is_open : State → Bool
is_open connected = true
is_open disconnecting = true
is_open _ = false

pub connect_established : Connection → Option Connection
unfolding update
connect_established c = do
  assert (is_connecting c.state)
  let c1 : Connection = update (enable_reading c.channel) (record c { state = connected })
  some (emit connection_call c1)

-- The first write of `sendInLoop`: the bytes taken, and whether the connection is at fault.
abbrev taken : Written → ℕ
taken (took n) = n
taken _ = 0

abbrev pub is_fault : Written → Bool
is_fault broken_pipe = true
is_fault conn_reset = true
is_fault _ = false

-- What has to wait goes to the output buffer, and the channel waits for room.
pub keep_rest : List ℕ → Connection → Option Connection
unfolding update
keep_rest bytes c = do
  out ← append bytes c.output
  let (writing, ch) = is_writing c.channel
  let c1 : Connection = record c { output = out; channel = ch }
  some (if writing then c1 else update (enable_writing ch) c1)

pub send_in_loop : Written → List ℕ → Connection → Option Connection
send_in_loop w bytes c =
    if is_disconnected c.state
    then some c
    else (let (writing, ch) = is_writing c.channel in
        let c1 : Connection = record c { channel = ch } in
        if not writing && readable_bytes c.output == 0
        then (do
          assert (leb (length bytes - taken w) (length bytes))
          let c2 : Connection = emit (writes (take (taken w) bytes)) c1
          if not (is_fault w) && ltb 0 (length bytes - taken w)
              then keep_rest (drop (taken w) bytes) c2
              else some c2)
        else if ltb 0 (length bytes)
        then keep_rest bytes c1
        else some c1)

-- `runInLoop` runs a task at once in the loop's thread, and queues it in any other.
pub send : Bool → Written → List ℕ → Connection → Option Connection
send in_loop w bytes c =
    if is_connected c.state
    then if in_loop then send_in_loop w bytes c else some (emit (queues (send_task bytes)) c)
    else some c

-- The overload for a buffer empties it.
pub send_buffer : Bool → Written → Buffer → Connection → Option (Buffer × Connection)
send_buffer in_loop w message c =
    if is_connected c.state
    then (do
      c' ←
          (if in_loop
            then send_in_loop w (content message) c
            else some (emit (queues (send_task (content message))) c))
      some (retrieve_all message, c'))
    else some (message, c)

pub shutdown_in_loop : Connection → Connection
shutdown_in_loop c =
    let (writing, ch) = is_writing c.channel in
    let c1 : Connection = record c { channel = ch } in if writing then c1 else emit shuts_write c1

pub shutdown : Bool → Connection → Connection
unfolding shutdown_in_loop
shutdown in_loop c =
    if is_connected c.state
    then (let c1 : Connection = record c { state = disconnecting } in
        if in_loop then shutdown_in_loop c1 else emit (queues shutdown_task) c1)
    else c

pub handle_close : Connection → Option Connection
unfolding update
handle_close c = do
  assert (is_open c.state)
  some (emit close_call (update (disable_all c.channel) (record c { state = disconnected })))

-- A read: data goes to the message callback, the end of the stream closes, an error is logged.
pub handle_read : Incoming → Connection → Option Connection
handle_read i c = do
  (r, input) ← read_fd i c.input
  let c1 : Connection = record c { input = input }
  elim r [
    | failed e ↦ some c1
    | received bytes ↦ if length bytes == 0 then handle_close c1 else some (emit message_call c1)
  ]

pub handle_write : Written → Connection → Option Connection
unfolding update
handle_write w c =
    let (writing, ch) = is_writing c.channel in
    let c1 : Connection = record c { channel = ch } in
    if writing
    then (let c2 : Connection = emit (writes (take (taken w) (content c.output))) c1 in
        if ltb 0 (taken w)
        then (do
          out ← retrieve (taken w) c.output
          let c3 : Connection = record c2 { output = out }
          some (if readable_bytes out == 0 then update (disable_writing ch) c3 else c3))
        else some c2)
    else some c1

-- `Channel::remove` asserts that the channel waits for nothing.
pub connect_destroyed : Connection → Option Connection
unfolding update
connect_destroyed c =
    let c1 : Connection =
      if is_connected c.state
      then update (disable_all c.channel) (record c { state = disconnected })
      else c in
    do
      assert (is_none_event c1.channel)
      some (emit removes (record c1 { channel = record c1.channel { added_to_loop = false } }))

pub force_close : Connection → Connection
force_close c =
    if is_open c.state
    then emit (queues force_close_task) (record c { state = disconnecting })
    else c

pub force_close_in_loop : Connection → Option Connection
force_close_in_loop c = if is_open c.state then handle_close c else some c
