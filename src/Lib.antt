-- ===== src/Lib.antt =====
-- Verification of a C++ network library for event loops: buffers, timers, channels, TCP
-- connections, the connector, the pollers, the thread pool, the calendar and the logging back
-- end.
--
-- The program. An EventLoop (networker/net/EventLoop.cpp) waits in a poller for what the
-- descriptors of its channels report and calls the channels back. A Channel
-- (networker/net/Channel.cpp) is the events that are asked for on one descriptor and the
-- functions to call. A TcpServer (networker/net/TcpServer.cpp) has an Acceptor take new sockets,
-- makes a connection of each in a loop of its EventLoopThreadPool, and keeps it by name until it
-- closes. A TcpConnection (networker/net/TcpConnection.cpp) owns a channel and two buffers
-- (networker/net/Buffer.h); a Connector (networker/net/Connector.cpp) owns a channel until a
-- socket is connected and hands the socket over, to a TcpClient (networker/net/TcpClient.cpp)
-- that keeps one connection. The TimerQueue (networker/net/TimerQueue.cpp) drives all timers by
-- one descriptor. Loggers append to an AsyncLogging (networker/base/AsyncLogging.cpp), whose
-- thread writes to a LogFile (networker/base/LogFile.cpp).
--
-- The files. Prelude and its children hold the shared names, Boolean tests on numbers, lists,
-- assertions and integers.
--   Endian: the conversions of networker/net/Endian.h on a little-endian host.
--   Buffer: networker/net/Buffer.h and Buffer.cpp, with the integers in Buffer/Ints, the line
--   ends in Buffer/Search and readFd in Buffer/Receive.
--   TimerQueue: networker/net/TimerQueue.cpp with Timer.h; the two ordered sets are in
--   TimerQueue/PairSet.
--   Channel: networker/net/Channel.h and Channel.cpp.
--   Connection: networker/net/TcpConnection.h and TcpConnection.cpp; its steps in
--   Connection/Stream.
--   Connector: networker/net/Connector.h and Connector.cpp.
--   EventLoop: the pending functors of networker/net/EventLoop.cpp.
--   Poller: networker/net/Poller.h and its two implementations:
--   networker/net/poller/EPollPoller.cpp in Poller/Epoll and PollPoller.cpp in Poller/Poll.
--   TcpServer: networker/net/TcpServer.cpp with Acceptor.cpp; its connections' names in
--   TcpServer/Names, its steps in TcpServer/Run.
--   StringPiece: networker/base/StringPiece.h.
--   TcpClient: networker/net/TcpClient.cpp over the Connector.
--   ThreadPool: networker/net/EventLoopThreadPool.cpp.
--   Date and TimeZone: networker/base/Date.cpp and TimeZone.cpp; the reader of zone files is in
--   TimeZone/File.
--   AsyncLogging and LogFile: networker/base/AsyncLogging.cpp with the buffer of LogStream.h,
--   and networker/base/LogFile.cpp over a directory whose files are renamed.
--   LogStream: the conversions and the bounded buffer of networker/base/LogStream.cpp and
--   LogStream.h.
--
-- The conventions. The state of an object is a record with the members of the class, and an
-- operation takes it to the new one. A failed assertion, an index out of range or a null pointer
-- is none, and so is an int of the calendar or a connection counter that overflows. A functor of
-- the server runs in the thread of its loop, so that assertInLoopThread is among its assertions.
-- A byte is a number. A size has 64 bits, and the storage of a buffer stays below 2 ^ 63 bytes,
-- as that of a vector does. A time is a number of microseconds or seconds. What the operating
-- system returns (readv, write, connect, the clock, new sockets and addresses) is an argument,
-- with its contract as a hypothesis where a theorem needs it. What is queued in a loop is a
-- list, and the calls of different threads are steps in any order. Loops over containers are
-- recursion on lists, so that no fuel is needed; the loops that write the digits of a number run
-- on 20 and 16 rounds, which are proved enough for 64 bits.
--
-- Not modelled: the system calls poll and epoll_wait, the dispatch of the EventLoop, the
-- destructors of the server and the client, threads and locks as such (a critical section is one
-- step), the format of log messages and sockets and addresses.
pub mod Prelude
pub mod Endian
pub mod Buffer
pub mod TimerQueue
pub mod Channel
pub mod Connection
pub mod Connector
pub mod Date
pub mod TimeZone
pub mod AsyncLogging
pub mod LogFile
pub mod ThreadPool
pub mod EventLoop
pub mod LogStream
pub mod Poller
pub mod TcpServer
pub mod StringPiece
pub mod TcpClient
