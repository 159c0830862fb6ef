-- ===== src/Lib.antt =====
-- CuBer, an HTTP server and reverse proxy in C++: the network buffer, the connection that sends
-- from it, the connector that opens those to an upstream, the two HTTP parsers, the chain of
-- request handlers, the chain of response filters, and the configuration they look up; below them
-- the loop of a thread with its two pollers and its timers, the log that a thread of its own writes,
-- a pool of threads, the dates, and the server that keeps the connections.
--
-- A connection (net/TcpConnection) reads into a buffer and writes from another (net/Buffer).
-- HttpServer::onMessage gives the buffer to the parser of requests (http/HttpContext), which fills
-- a request (http/HttpRequest) line by line and says whether it is complete. A complete request
-- goes down the chain of handlers (http/HttpHandler), until one answers it: the access handler
-- looks up the longest location of the configuration (config/ServerConfig) that the path lies in,
-- the static handler serves a file, the handler for POST reads the body, the proxy handler
-- (http/HttpProxyHandler) prints the request for an upstream, and the last answers 404.
-- `kHandleAgain` starts the chain again. A response (http/HttpResponse) goes through the filters
-- (http/HttpFilter), which complete its headers, send it and log it; that of an upstream is read by
-- the parser of responses (http/HttpResponseContext).
--
-- The files, and the code they are about:
--   Prelude, Prelude/*              what the code uses of the standard library: strings of bytes, stoi,
--                                   std::find, isspace, std::map, and the lemmas on them
--   Buffer                          net/Buffer.h, net/Buffer.cc and net/Endian.h: `buffer`,
--                                   `reader_index` and `writer_index` are the fields, one function per
--                                   method (`append` is append, `make_space` is makeSpace)
--   Buffer/Content, Reading, Integers, Search  proofs on the bytes between the indices, on the words in network
--                                   order, and on findCRLF
--   Buffer/Queue                    the queue of bytes that the buffer refines
--   Connection                      net/TcpConnection.h, TcpConnection.cc and the events of
--                                   net/Channel.h: one function per method (`send_in_loop` is
--                                   sendInLoop), and what has happened outside as fields
--   Connection/Steps                what can happen, in any order, and the connections it leads to
--   Connection/Delivery, Operations, Order, Closing  that bytes stay in order, and how a connection ends
--   Connection/Racing               forceClose, forceCloseWithDelay and shutdown in two steps, the test of the
--                                   state and its change, since they take no lock
--   Connector                       net/Connector.h and Connector.cc: one function per method
--   Connector/Accounts, Retries     what becomes of the sockets and of the retries
--   Poller                          net/poller/PollPoller.h and PollPoller.cc
--   Poller/Indices, Changes, Removal, Reached  the indices of the channels against the array
--   EPoll                           net/poller/EPollPoller.h and EPollPoller.cc, and the events of
--                                   net/Channel.h: one function per method, over an interface for epoll
--   EPoll/Watch, Updates, Watching  the map that the poller refines
--   EventLoop, EventLoop/Steps      net/EventLoop.h and EventLoop.cc: the steps of `loop`, of queueInLoop,
--                                   runInLoop and quit, and their interleavings
--   EventLoop/Functors              the order of functors, and wakeups
--   TimerQueue, TimerQueue/Steps    net/Timer.h, Timer.cc, net/TimerQueue.h and TimerQueue.cc: one function per
--                                   method, handleRead in its parts, and what can happen between them;
--                                   `how_much_time_from_now` and `reset_timerfd` set the timerfd
--   TimerQueue/Places, Adding, Taking, Resetting, Phases, Reached  the two sets and the heap against the place of each timer
--   TimerQueue/Timely, Alarm, Repeats, Over, Cancelled  the timerfd, which timers run, and cancellation
--   Logging, Logging/Steps          base/AsyncLogging.h, AsyncLogging.cc and the FixedBuffer of
--                                   base/LogStream.h: `append_to` is append, `enter_round`,
--                                   `lock_buffers`, `swap_buffers` and `write_out` a round of threadFunc
--   Logging/Texts, Pointers, Rounds, Order  the text in the buffers, and that no pointer is null
--   TcpServer, TcpServer/Steps      net/TcpServer.h, TcpServer.cc and getNextLoop of net/EventLoopThreadPool.cc:
--                                   one function per method, and what can happen
--   TcpServer/Names, Connections, Loops  that names differ, the map of connections, and their loops
--   ThreadPool, ThreadPool/Steps    base/ThreadPool.h and ThreadPool.cc: `run_locked` and `take_locked` are the
--                                   blocks of run and take that hold the mutex, and what can happen
--   ThreadPool/Waiting              the order of tasks, and wakeups
--   Date, Date/Calendar             base/Date.h and Date.cc, and the calendar that it computes with
--   Date/Parts, Months, Days        the parts of a day number, and the order of the days, without bounds
--   Date/Bounds                     both conversions where no `int` overflows
--   Config, Config/Locations        config/ServerConfig.h
--   Http/Request, Request/Printing  http/HttpRequest.h
--   Http/Context                    http/HttpContext.h and HttpContext.cpp: `round` is one round of the
--                                   loop of parseRequest, one function per case of the switch
--   Context/Stream, Chunks, Ends, Line, RoundTrip, Sent  the parser on the bytes alone, input in parts,
--                                   the end of the loop, the request line, and the way there and back
--   Http/Response, Response/Printing  http/HttpResponse.h and HttpResponse.cpp
--   Http/ResponseContext, ResponseContext/Body  http/HttpResponseContext.h and HttpResponseContext.cpp
--   Http/Handler, Handler/Location  http/HttpHandler.h, HttpHandler.cpp and HttpProxyHandler.cpp
--   Http/Filter, Filter/Closing     http/HttpFilter.h and HttpFilter.cpp
--   Http/Server, Server/Handling, Server/Partial  the loop of onRequest in http/HttpServer.cpp
--   Server/Messages, Messages/Answering  http/HttpServer.h and HttpServer.cpp: onMessage and what it
--                                   calls, from the bytes to the answer
--   Http/Proxy, Proxy/Routing       the callbacks of http/HttpProxyHandler.cpp
--   Http/Timer, Timer/Expiry        http/HttpTimer.h and HttpTimer.cpp
--   */Tests                         runs on concrete inputs
--
-- How the code is read: a byte is a number, a string a list of bytes; a pointer into the buffer is
-- an index; a mutable object is a value that each operation returns anew. A `std::map` is a list in
-- the order of its keys; the order in which a loop visits an `unordered_map` is a parameter. An
-- `assert` is no test (it is left out of a release build), and where it guards a theorem it is a
-- hypothesis. An exception that nobody catches is an outcome of its own. `size_t` is taken without
-- overflow, except where the code casts to it: `to_size` of a negative number wraps around. An `int`
-- that would overflow in base/Date.cc makes the answer `none`. A call of a connection by another
-- thread is one step, except in Connection/Racing. The clock of the timers is a number of microseconds,
-- and it is not set back while the timerfd runs.
--
-- Fuel: `parse_request` gives its loop four rounds more than there are bytes to read, which is
-- enough, since each round takes a line off or comes closer to the last state. `match_location`
-- gets a round for each byte of the path, and each round shortens it. `run_handlers`, and with it
-- `on_message`, and `parse_response` take their fuel as an argument, since their loops need not end.
--
-- Not modelled: the system (sockets, files, the clock) is a parameter or left out; the start of
-- the servers and the clients of TCP, the files and the printing of the log, time zones, the other
-- queues and the latch, and the start of the process; the YAML library and the loader that calls it;
-- HttpContext::parseBody, which nothing calls.
pub mod Prelude
pub mod Buffer
pub mod Date
pub mod Logging
pub mod ThreadPool
pub mod TcpServer
pub mod Connection
pub mod Connector
pub mod Poller
pub mod EPoll
pub mod EventLoop
pub mod TimerQueue
pub mod Config
pub mod Http
