-- ===== src/Lib.antt =====
-- TAlib: a network library around one event loop for each thread, with an HTTP server on top and
-- clients for Redis and MySQL.
--
-- The parts, and the files that model them. Paths of the code are from the repository's root.
--
-- Buffer (src/common/Buffer.h, Buffer.cpp) holds the bytes of a connection in a vector with a read
-- and a write index. `Buffer` has the vector as a list and the indices as numbers, and one function
-- for each method; a failed assertion, or an exception of the vector, is `none`. A `size_t` that is
-- passed as `int` goes through `int_arg`. `Buffer/Space`, `Content`, `Input` and `Search` are about
-- makeSpace, the retrievals, append and readFd, and findCRLF; `Buffer/Queue` compares runs of calls
-- with a queue of bytes. Vectors are taken to be below 2^62 bytes, and one append below 2^31.
--
-- The HTTP parser (src/Http/HttpRequest.h, HttpContext.h, HttpContext.cpp) reads a Buffer line by
-- line. `Http/Request` and `Http/Context` have setMethod, addHeader, processRequestLine and
-- parseRequest; the loop runs on fuel, one unit for each round, and more fuel than readable bytes is
-- enough while a line is expected, since each round that goes on takes a CRLF from the buffer.
-- `Context/Bytes` describes the same parser over plain bytes, `Refines` relates the two, `Chunks`
-- and `RoundTrip` are about requests in pieces and about well-formed requests, `Print` has their
-- text, and `Faults` has refused lines. A time stamp is a number, and the headers are an association
-- list in the order of std::map.
--
-- The response (src/Http/HttpResponse.h, HttpResponse.cpp) and the server's handlers
-- (src/Http/HttpServer.cpp) put the parser, the buffers and the connection together. `Http/Response`
-- has the setters and appendToBuffer, with the text of a response in `Text`; `Http/Server` has
-- onConnection, onMessage and onRequest on a connection with its context, the callback being an
-- argument, and `Answer` goes from the bytes of a request to the bytes of its response.
--
-- Reactor: a Channel (src/Reactor/Channel.h, Channel.cpp) is what a descriptor waits for and calls,
-- and Epoll (src/Socket/Epoll.h, Epoll.cpp) passes it to the kernel. `Reactor/Channel` has the mask
-- as a record of bits, with `Masks` and `Dispatch`; `Reactor/Epoll` records the calls of epoll_ctl,
-- and `Kernel` gives them their documented effect. The map holds the channel's fields, so the
-- assertion that it holds the very same channel object is not in the model.
--
-- A TcpConnection (src/Tcp/TcpConnection.h, TcpConnection.cpp) owns a channel and two buffers.
-- `Tcp/Connection` has one function for each method; what a method does outside (writes to the
-- socket, updates of the poller, callbacks, tasks for the loop) is recorded in order, and what the
-- kernel answers to a read or a write is an argument. `Stream` is about the order of the bytes sent,
-- `States` about the states, `Interest` about what the channel waits for. A task that another thread
-- leaves to the loop carries its bytes by value, where the code keeps a pointer.
--
-- A Redis command (class Command of src/Redis/RedisConnect.h) prints a request and parses a reply.
-- `Redis/Command` stops with `none` at an array inside an array and at a nil inside an array, which
-- it does not model; the lengths, counts and numbers of a reply are taken to fit an `int`. `Reply`
-- and `Partial` are about whole replies and replies in parts. `Redis/Socket`
-- (class Socket) has the loops that write and read a number of bytes, over a list of what the kernel
-- answers; `Moves` has the number of answers after which writing has ended. `Redis/Connect` is
-- getResult and execute: what `recv` gives is a list, so that the loop recurs on it, and the connection
-- keeps all that it wrote. `Commands` has the commands of the client, `Chunks` is about a reply in
-- parts, `Get` about the commands that read one element. The pool of
-- shared resources (src/Redis/ResPool.h) is `Redis/ResPool`: each part of `grasp` that runs under the
-- lock is a function, `Steps` interleaves such parts, and `Scan` is about one attempt. Whether a
-- resource is in use, the time, and what `func` creates are arguments; lengths and times are not
-- negative. `Redis/Instance` has the loop of `get` over the attempts as they follow each other, the
-- grasp of RedisConnect, which calls itself and runs on fuel, what makes a connection, and RedisCache
-- (src/Redis/RedisCache.cpp); `Waits`, `Usable` and `Cached` are about each of these.
--
-- The MySQL pool (class Pool of src/MySQL/pool.h, pool.cpp) hands out connections: `MySql/Pool` has
-- the slots, getConnection and releaseConnection; what other threads release and take while a caller
-- sleeps is a list, on which its loop recurs. `Use` is about who has which connection, `Wait` about a caller that
-- waits. `MySql/Query` is executeQuery and QueryResult, with the answers of the client library as an
-- argument, and `Rows` the table that comes of them.
--
-- The loop (src/Reactor/EventLoop.h, EventLoop.cpp) runs callbacks and the functors that are left to
-- it. In `Reactor/EventLoop` a functor is a number, and an argument says which functors it leaves to
-- the loop when it runs; the active channels of each return of the poller are an argument too, so
-- that `rounds` recurs on the list of the returns. `Pending` is about doPendingFunctors; `Wakeup` has the
-- steps of the loop's thread and of others, between which queueInLoop may be interrupted after its
-- lock. `Reactor/ThreadPool` (src/Reactor/EventLoopThreadPool.h, EventLoopThreadPool.cpp) hands out
-- the loops, which are numbers, with `RoundRobin` on their order. `Reactor/LoopThread`
-- (src/Reactor/EventLoopThread.cpp) has the steps of the thread of a loop and of its owner, from
-- startLoop to the destructor, and `Handshake` the worlds that they can reach.
--
-- The timers of a loop (src/Reactor/TimerQueue.cpp, Timer.h, Timer.cpp) stand in two ordered sets.
-- `Reactor/TimerQueue` has the sets as sorted lists (`Prelude/PairSet`) and the live timers by
-- their addresses; a deleted timer that is used, and a failed assertion, is `none`. The time is an
-- argument, the alarm is the time that the descriptor was last set to, and the callbacks are an
-- argument that gives their requests. `Valid` has the agreement of the sets, `Leave` and `Expiry` are about
-- getExpired and cancelInLoop, `Restart` about reset, `Round` about the whole of handleRead.
--
-- The logger (src/Logger) puts a line together and passes it to a thread that writes. `Logger/LogBuffer`
-- and `Logger/LogStream` (LogStream.h, LogStream.cpp) are the fixed buffer and its operators, with the
-- loops of convert and convertHex in `Logger/Convert`: their fuel is 20 and 16 rounds, which is enough
-- for a value of 64 bits since each round takes a digit from it. `Logger/LogFile` (LogFile.cpp,
-- FileUtil.cpp) is the file with its rolling, and `Logger/AsyncLogging` (AsyncLogging.cpp, ptr_vector.h) the buffers between the
-- threads: `append_line` is append under the lock, `collect` the locked part of a round of the writing
-- thread, `write_out` the rest. `Order` has the invariant and `Thread` the interleavings. `Logger/Line`
-- (Logger.h, Logger.cpp) is one line from the macro to the output, with the calendar, the time and the
-- numbers of the process and the thread as arguments: `Time` is about the time that a thread keeps,
-- `Body` about values that follow each other, `Head` has the text that a line begins with, and `Whole`
-- is about the line.
--
-- The cache of the static server (src/cache/LFUCache.h, LFUCache.cpp) is `Cache/Lfu`. A node is known by
-- the number of its allocation, and the list of one frequency by its frequency; the two maps are
-- association lists (`Prelude/Table`). `Lists` is about the lists, `Valid` about their agreement with the
-- maps, `Evict`, `Store` and `Use` about the operations in a cache where every key was stored when it
-- was absent.
--
-- The server (src/Tcp/TcpServer.cpp, with handleRead of src/Reactor/Acceptor.cpp) is `Tcp/Server`: it
-- takes connections from the acceptor, gives each to a loop of the pool and lets it go again. What the
-- kernel answers to `accept` is an argument, what is left to loops and done to descriptors is recorded.
-- `Accepts` is about many connections in turn, `Removal` about one that leaves.
--
-- The static server (example/static_server_example.cpp) is `Example/StaticServer`: its callback over the
-- cache, the content types of `Http/Mimetype` (src/Http/Mimetype.cpp) and the response; the file system
-- is an argument. `Serves` follows a file into the cache.
--
-- The addresses of sockets (src/Socket/InetAddress.cpp, SocketHelp.cpp, src/common/Endian.h) are
-- `Socket/Address`, on a machine that stores the low byte first, with `Text` on how they print. The
-- poller over poll(2) (src/Reactor/Poll.cpp), which nothing makes, is `Reactor/Poll`; what the kernel
-- reports is an argument, and `Active` is about the channels that are reported.
--
-- A time stamp (src/common/TimeStamp.h, TimeStamp.cpp) is a number of microseconds everywhere;
-- `Common/TimeStamp` has what it prints, for times from 1970 on, and `Text` reads that back.
--
-- Not modelled: the threads themselves; the opening and closing of connections to Redis and MySQL;
-- the choice of the output of the logger;
-- the wrappers of system calls, which the models take as arguments; the other programs under example/
-- and the copy of webbench/.
mod Prelude
pub mod Buffer
pub mod Http
pub mod Reactor
pub mod Tcp
pub mod Redis
pub mod MySql
pub mod Logger
pub mod Cache
pub mod Example
pub mod Socket
pub mod Common
