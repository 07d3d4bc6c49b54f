-- ===== src/Lib.antt =====
-- A verification library for muduo, the network library under Linux多线程服务端编程/muduo/muduo; the paths
-- below are relative to that directory (examples/ is beside it). It follows the way of the bytes: a socket's bytes come into a
-- `Buffer` of a `TcpConnection`, whose `Channel` says which callbacks the events of the loop lead to;
-- an `HttpServer` parses requests from the input buffer and sends responses through the output buffer;
-- a `Connector` makes outgoing connections, of which a `TcpClient` keeps one; an `Acceptor` takes incoming
-- ones and a `TcpServer` keeps them. A codec frames messages on a connection. An `EventLoop` polls,
-- runs the callbacks of channels and timers, and then the functors that other threads have queued. Dates
-- and time zones, the thread pool, the queues and the latch, the log stream and its back end stand on
-- their own.
--
-- Common: Boolean tests, sequences, 64-bit sizes (`add_size`, `sub_size` wrap around at 2^64), byte
--   strings, `std::map` with string keys, signed numbers, numerals, and `Checked`, the result of code
--   that can fail an assertion or an exception of a container.
-- Buffer: net/Buffer.h and net/Buffer.cc, one function for each method (`retrieveAsString` is
--   `retrieve_as_string`); Buffer/Integers has the integers in network order, a function of the width
--   where the source has four methods. Buffer/Contents, Buffer/Writing and Buffer/Filling show what
--   the operations do to the content, the bytes between the indices; Buffer/Search what the search for a
--   line finds.
-- Http: net/http/HttpRequest.h, HttpContext.h and HttpContext.cc; Http/Response is HttpResponse,
--   Http/Server is HttpServer.cc. `parseRequest` is `parse_request`, its loop runs on fuel, one more
--   than the bytes of the buffer: each round but the last consumes a line, and Http/Termination shows that
--   this is enough. Http/Format, Http/Lines, Http/Steps and Http/RoundTrip lead to the round trip, and
--   Http/Server/Exchange goes from the bytes of a request to the bytes of the answer.
-- Log: base/LogStream.h and base/LogStream.cc. `convert` runs on fuel, one more than the magnitude of
--   the number, which is at least the number of its digits. Log/Async: base/AsyncLogging.cc, with the
--   buffers in flight; Log/Async/Lines, Log/Async/Order and Log/Async/Turn follow the lines to the file.
--   Log/File: base/LogFile.cc and the AppendFile of base/FileUtil.cc, with the files that were closed;
--   Log/File/Steps and Log/File/Rolling follow them over time.
-- Date: base/Date.h and base/Date.cc, with the Gregorian calendar in Date/Calendar and Date/Days.
--   Where an `int` overflows the answer is `none`; Date/Bounds is on the dates for which none does.
-- Zone: base/TimeZone.h and base/TimeZone.cc. `toUtcTime` and `fromUtcTime` are in Zone (Zone/Utc is on
--   them); `findLocaltime`, `toLocalTime` and `fromLocalTime` in Zone/Local (Zone/Local/Lookup,
--   Zone/Local/RoundTrip); `readTimeZoneFile` in Zone/File, a reader of bytes that may throw or break
--   (Zone/File/Pieces, Zone/File/RoundTrip). `gmtime_r` and `timegm` are parameters.
-- Codec: examples/asio/chat/codec.h. The loop of `onMessage` runs on fuel, one more than the bytes of the
--   buffer: each round but the last consumes four or more. Codec/Frames has the frames as bytes,
--   Codec/Decoding a call on them, Codec/Chunks calls on any pieces of them, Codec/Sending `send`.
-- Hub: examples/hub/hub.cc, with examples/hub/codec.cc in Hub/Messages (Hub/Messages/RoundTrip reads a
--   message back). The loop of `onMessage` runs on fuel. Hub/Sets is `std::set`, Hub/Consistency what
--   each operation does to the subscriptions, Hub/Reachable the server over time.
-- Tcp/Channel: net/Channel.h and net/Channel.cc. Tcp/Connection: net/TcpConnection.h and
--   TcpConnection.cc, each method as it runs in the loop's thread, on a record of the connection's
--   fields; `runInLoop` is a call, `queueInLoop` and the user's callbacks are recorded in order.
--   Tcp/Connector: net/Connector.cc in the same way, with the lists of sockets closed and handed on
--   (Tcp/Connector/Sockets). Tcp/Acceptor: net/Acceptor.cc, with its descriptors. Tcp/Client:
--   net/TcpClient.cc, on the two: Tcp/Client/Steps and Tcp/Client/Connecting are about what they do,
--   Tcp/Client/Current and Tcp/Client/Reachable about the client over time. Tcp/Server: net/TcpServer.cc, connections by their numbers; Tcp/Server/Members
--   has its steps over time, and Tcp/Server/Removal what holds of them.
-- Epoll: net/poller/EPollPoller.cc, channels as objects in a store by address, the calls of
--   `epoll_ctl` recorded; Epoll/Interest is the interest list after them, Epoll/Registration,
--   Epoll/Filling and Epoll/Agreement that it agrees with the poller's records.
-- Poll: net/poller/PollPoller.cc and net/Poller.cc; Poll/Positions, Poll/Agreement, Poll/Registration
--   and Poll/Filling lead to Poll/Runs, on any sequence of changes.
-- Loop: net/EventLoop.cc; Loop/Steps is a relation of the steps of the loop's thread and of others, and
--   Loop/Pending what holds of them.
-- Timers: net/Timer.h, Timer.cc and TimerQueue.cc, timers in a store by address, with what the clock
--   shows as arguments and the least delay of 100 microseconds. Timers/Sets is
--   `std::set`; Timers/Agreement, Timers/Updates, Timers/Cancelling, Timers/Expiring, Timers/Resetting
--   and Timers/Alarm show what the operations do, and Timers/Reachable puts them one after the other.
-- Sync: the conditions of base/Condition.h, as the number of threads that wait and that are woken;
--   Sync/Blocking, Sync/Bounded and Sync/Latch are base/BlockingQueue.h, BoundedBlockingQueue.h and
--   CountDownLatch.cc, each section under the mutex as one step, and their threads over time.
-- ThreadPool: base/ThreadPool.cc, in the same way.
-- LoopPool: net/EventLoopThreadPool.cc.
-- Examples: concrete inputs at which the theorems apply.
-- System calls and `snprintf` of floating-point numbers are not modelled: their results are
-- arguments, with what POSIX says of them as hypotheses (`Takes`). The largest size of a vector is
-- 2^63 - 1, and theorems on growing buffers ask for room below it. The length of a `StringPiece` is an
-- `int` (`int_size`). The number of the next connection of a server is an `int` whose overflow is a fault. Not modelled: Timestamp,
-- the destructor of TcpClient, base/Logging.cc, the wrappers of system calls (sockets, addresses,
-- processes), the RPC classes, which stand on generated code, and the text pages of net/inspect. Logging
-- statements are left out, and the creation and joining of threads. Not part of the program proper: the
-- other muduo/examples and the recipes beside it.
pub mod Buffer
pub mod Codec
pub mod Common
pub mod Date
pub mod Epoll
pub mod Examples
pub mod Http
pub mod Hub
pub mod Log
pub mod Loop
pub mod LoopPool
pub mod Poll
pub mod Sync
pub mod Tcp
pub mod ThreadPool
pub mod Timers
pub mod Zone
