-- ===== src/Lib.antt =====
-- The Gearman job server and protocol library of this repository: the packets, their codec and the
-- client (crate rustygear) and the server's jobs, workers and requests (crate rustygeard).
--
-- How the parts interact. The codec cuts packets out of the bytes of a connection. Each connection
-- has a service, whose `call` chooses a handler by the type of the packet. The handlers work on
-- tables that all the connections share, each behind a mutex: the storage of jobs, the table of
-- sleeping and awake workers, the senders by connection, the workers by connection and the waiters
-- by handle. A handler answers its own client and spawns sends to other connections. The client
-- has a handler for each server it is connected to, which turns packets into messages on channels,
-- and methods that send a request and wait for such a message.
--
-- Which file models what:
-- - Constants, Constants/Table: rustygear/src/constants.rs, each constant under its own name in
--   lower case, `REQ` and `RES` as magic_req and magic_res, and the table `PTYPES`.
-- - Packet: the types of rustygear/src/codec.rs and the helpers of rustygear/src/util.rs; Job:
--   rustygear/src/job.rs; Outcome: how a call ends (value, `io::Error`, panic).
-- - Codec: `admin_decode`, `into_bytes`, `decode` and `encode` of rustygear/src/codec.rs, as
--   functions from a buffer to an outcome and the buffer that is left. `put_u32` and `get_u32` of
--   the crate `bytes` are the interface Word. Codec/Chunks, Codec/RoundTrip, Codec/Reverse,
--   Codec/Shrink and Codec/Admin have its theorems.
-- - Text, Text/Decimal, Text/Width, Text/Number, Text/Ascii: what the code uses of UTF-8 decoding,
--   `trim`, decimal formatting and `parse` in the Rust standard library.
-- - Mutex: a value and whether it is poisoned.
-- - Client: rustygear/src/client.rs. Client/State has the structs, the channels and the monad of
--   the methods; Client/Handlers is `ClientHandler`; Client/Requests has `Client` as it submits
--   jobs, Client/Work `WorkerJob` and `Client` as it works. A method that waits for an answer
--   (`submit`, `echo`, `get_status`, `work`) is two functions, before and after the wait:
--   direct_submit and submit_response, echo and echo_response, get_status and status_response;
--   `work` is one turn of its loop. Client/Ready, Client/Submission, Client/Status,
--   Client/Progress, Client/Delivery and Client/Jobs follow packets between a client and the
--   handlers of the server, Client/Journey one job through both.
-- - Worker: rustygeard/src/worker.rs. The set of the crate `wrappinghashset` is the interface
--   WrappingSet. Worker/Presence states each operation as a change of where each connection
--   stands, Worker/History histories of operations, Worker/Refinement runs of operations.
-- - Queues: rustygeard/src/queues.rs, `JobStorage` and its operations. A `Weak` reference is the
--   number of an allocation; whether it can be upgraded is whether the storage or a worker still
--   owns that allocation. Queues/Search and Queues/Grab are about `get_job`, Queues/Remotes and
--   Queues/Jobs about the tables of remotes.
-- - Service: rustygeard/src/service.rs. Service/State has the shared state, the mutexes with their
--   poisoning and the monad of handlers; Service/Submit and Service/Handlers the handlers; Service
--   itself `call`. Service/Keeps, Service/Secure and Service/Stability are about what no request
--   undoes, Service/Numbered about the handles that were given out, Service/Race about two
--   submissions whose steps interleave, Service/Journey about a job from its submission to its
--   end, Service/Wake about the worker that a submission wakes, Service/Begun, Service/Known and
--   Service/Ended about what a submission with a new and with a known unique id and a completion
--   leave in each table; Service/Created, Service/Completed, Service/Waiters, Service/Missing,
--   Service/Poison, Service/Handles and Service/Answers have further theorems; Service/Lifecycle
--   is how a service begins and ends.
-- - Server: rustygeard/src/server.rs, what the accept loop, the reader and the writer of a
--   connection do to the shared tables. Server/Run has the states that they lead to;
--   Server/Garbled and Server/Stuck are about a client id that is no UTF-8.
-- - Threads: the handlers, the reports and the loops of a connection once more, as programs of
--   which the steps interleave: Threads/Program has their type, a tree of locks, unlocks and
--   changes of the state, Threads/Submit, Threads/Handlers and Threads/Call the programs of the
--   handlers of rustygeard/src/service.rs and rustygeard/src/admin.rs, each named after its
--   handler, Threads/Connections those of the tasks of rustygeard/src/server.rs. Threads/Machine
--   runs threads under a schedule, a list that says whose turn it is: a thread waits for a mutex
--   that is locked, panics at one that is poisoned, and poisons what it holds when it panics.
--   Threads/Order is about the order in which mutexes are locked, Threads/Tickets about the job
--   numbers that a task has drawn; Threads/Does and Threads/Equal compare the programs with the
--   handlers in one piece, and Threads/Progress, Threads/Schedule, Threads/Numbers and
--   Threads/Exclusive are about schedules.
-- - Admin: rustygeard/src/admin.rs; Admin/Report is about the report of the functions.
-- - Prelude: shared lists, maps, sets, equality and tests. Tests: runs at concrete inputs.
--
-- Bounds and fuel. A packet's type and size are below 2 ^ 32 where a theorem needs it; `as u32` is
-- written as a remainder by 2 ^ 32, the job count wraps at 2 ^ 64. Decimal digits are computed
-- with the number itself as fuel, which is more than the count of its digits. The test of debug
-- logging is an argument of `decode` and `call`, since the code evaluates the arguments of its log
-- lines only then. A hash map is a list of pairs, in which an insertion replaces the pair of its
-- key, so the order of the report `status` is that of the list; the BTreeMap `workers_by_conn` is
-- kept in the order of the connection numbers (Prelude/Ordered). Outside of Threads and
-- Service/Race requests run one after the other, each handler one step on the shared state. A step
-- of Threads is one lock, one unlock, or one change of the state under the locks that are held; a
-- schedule is a finite list, and a turn of a thread that cannot step passes. Each allocation of a
-- job or of a worker has a number, counted without bound; the cell of a worker is never freed, so
-- a job that only a worker of a closed connection holds still counts as held. A round of `work` in
-- the model ends before the wait for a job, while the source keeps the lock of the connections
-- over that wait and goes on with the job in the same round.
--
-- Not modelled: the event loop, the sockets and the channels of rustygeard/src/server.rs and
-- rustygear/src/client.rs, what the drop of a service does when its reader has panicked, the
-- examples and scripts. A spawned send of the server is a pair of a channel and a packet in the
-- list `sent`; a channel of the client is a list of messages in the order in which they were sent,
-- without the capacity of the channel. The uuid that the client makes for a submission is an
-- argument of `direct_submit`.
pub mod Admin
pub mod Client
pub mod Codec
pub mod Constants
pub mod Job
pub mod Mutex
pub mod Outcome
pub mod Packet
pub mod Prelude
pub mod Queues
pub mod Server
pub mod Service
pub mod Tests
pub mod Text
pub mod Threads
pub mod Worker
