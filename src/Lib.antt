-- ===== src/Lib.antt =====
-- tube is an HTTP server in stages: a poll stage reads from the connections that are ready, parser
-- and handler stages take them from schedulers, and a write-back stage sends what the handlers left
-- in the output streams. This library models its core, the parts of the web layer that read requests,
-- and the FastCGI client.
--
-- Utils, for utils/:
--   FdMap      fdmap.h: the map from descriptors to list nodes
--   NodeList   list.h: the linked list of the schedulers
--   MemPool    mempool.cc, mempool.h: objects from a block, with a stack of the free ones
--   Compare    misc.cc: ignore_compare, string_to_upper_case, parse_bool
-- Core, for core/:
--   Buffer     buffer.cc: bytes over pages; Buffer/Repr says which bytes a buffer holds
--   Sharing    buffer.cc: several buffers over shared pages, and the copy before a write
--   Timer      timer.cc: the tree of callbacks
--   Poller     poller.cc: the descriptors of a poller, over FdMap
--   Scheduler  pipeline.cc: QueueScheduler, over NodeList and FdMap
--   Stream     stream.cc, filesender.cc: what a connection has to send, over Buffer
--   Request    wrapper.cc: Request::read_data, over Buffer
--   Connection pipeline.cc, pipeline.h: a connection's flags, lock, idle time and continuation
--   PollIn     stages.cc: the pollers of PollInStage with their timers and expired connections
--   Stages     stages.cc, pipeline.cc: all connections, and the stages that hand them on; Loop is what
--              a poller does behind its events, Ends how connections leave
--   Response   wrapper.cc: writing and flushing a response, over Stream
--   Controller controller.cc: when a thread is added
-- Http, for http/:
--   Url        http_wrapper.cc: url_decode
--   Connection connection.cc: the parser's callbacks, do_parse over the pages of the input, is_ready
--   Handler    http_stages.cc: trigger_handler and process_task over the requests of a connection
--   Body       http_wrapper.cc, connection.cc: reading a request's body, and skipping it unread
--   Headers    http_wrapper.cc: the headers of a request, with their quality lists
--   Status     http_wrapper.cc: the statuses of responses
--   Response   http_wrapper.cc: HttpResponse, over Core/Response
--   Stages     http_stages.cc: the tasks of the parser's and the handler's stage; Runs has every order
--              of what the threads of a server do
--   Path       static_handler.cc: string_remove_dots
--   Range      static_handler.cc: parse_range and the range of a reply
--   Cache      io_cache.cc: IOCache in its locked steps
--   Config     configuration.cc: handlers, URL rules and virtual hosts
-- Fcgi, for modules/mod_fcgi/:
--   Proto, Environment, Headers   fcgi_proto.cc: records, requests and response headers
--   Pool       connection_pool.cc: ConnectionPool
--   Completion fcgi_completion_stage.cc: the status of a request, its descriptors and its idle time;
--              Parse is run_parser, Transfer transfer_status with the reads and writes
--   Handler    fcgi_handler.cc: the task of a request, process_eof and process_abort; Resume is
--              handle_request for a continuation that is handed on
-- Common has the helpers that these share.
--
-- How the code is read. A state is a record, and an operation a function that takes it and gives it
-- back with its result. A byte, a char and an unsigned number are natural numbers, with the cut to
-- their width written out where it can occur. A std::string is the list of its bytes. A pointer to a
-- list node is the node's number; a context or a memory address is a number. What the operating
-- system, malloc or a factory answers is an argument of the operation that asks. A failing assertion
-- gives `none`. Concurrency is explicit: locks that try_lock finds taken are a test that is an
-- argument, and what other threads did during a wait is the state that the wake brings.
--
-- How the parts meet. A connection goes by its descriptor. Core/PollIn keeps who polls it, and
-- Core/Stages the queues that the schedulers stand for, which Core/Scheduler shows to be queues. A
-- handler leaves a connection with what it wrote through Http/Response, Core/Response and
-- Core/Stream, and Core/Stages sends that stream. What the parser and a handler do to a connection
-- is an argument of the steps of Http/Stages/Runs, which has the hand-over of a streamed FastCGI
-- response too. Http/Handler says what the handler's task does to the requests that Http/Connection
-- has parsed. Fcgi/Completion moves a request on between the calls of its handler, over Fcgi/Proto
-- and Core/PollIn, and Fcgi/Handler ends it over Fcgi/Pool and Http/Response.
--
-- Fuel. append_loop has one round for each whole page of the bytes and one more; remove_dots_loop has
-- one round for each character and one more, and so have the loop over a quality list and the digits
-- of a number. The loops of handle_read and of process_headers_done have one round for each byte of
-- the task buffer and one more, as each record takes a header from it. Each loop uses up at least that
-- much in each round, and the theorems on them say what they give without a condition on the fuel. The
-- waits of a pick are a list of wakes, and the writes of a flush a list of answers, of any length.
--
-- Not modelled: PollOutStage, which is the write-back stage unless the configuration asks for
-- BlockOutStage; the buffer of a request's chunks; the start of the stages; the parsers of requests
-- and of FastCGI headers, which are generated and stand as arguments; the environment's names and the
-- connects of the FastCGI handler; the bindings for C and Python; the system calls, logging and
-- start-up. A callback of a timer may not change the tree that process_callbacks is at work on: those
-- of PollInStage do not, and that of the FastCGI completion stage, which erases its own entry for a
-- client that is read from, is modelled by itself only.

pub mod Common
pub mod Utils
pub mod Core
pub mod Http
pub mod Fcgi
