-- ===== src/Lib.antt =====
-- A model of the C extension of iodine, a Ruby web server: the parts that iodine adds to the
-- facil.io framework, as functions and step relations, with what makes them correct.
--
-- The parts, and where they are:
-- - Store: `IodineStore` of ext/iodine/iodine_store.c, the counted table that keeps Ruby objects
--   from the garbage collector. Every other part is a client of it.
-- - WorkerPool: ext/iodine/iodine_worker_pool.c. WorkerPool/Queue.antt is the work queue as it lies
--   in memory; WorkerPool/State.antt has the data, and WorkerPool/Pool.antt one definition for each
--   stretch of code that a thread runs under the mutex or the GVL; `step` and `Reach` put them
--   together in any order.
-- - Scheduler: ext/iodine/scheduler.c. Scheduler/Attach.antt has `iodine_scheduler_attach` and the
--   callbacks that it registers, run by `react` under the reactor's two locks: a call of the block
--   begins in one step and comes back in another. Scheduler/Io.antt has the reads and writes.
-- - Connection: the methods and events of ext/iodine/iodine_connection.c. A call that reaches
--   facil.io or Ruby is listed as an effect.
-- - Pubsub: subscribing and publishing in ext/iodine/iodine_connection.c. Pubsub/Arguments.antt
--   reads the arguments; Pubsub/Room.antt follows the subscriptions of one connection through the
--   threads that subscribe, close, cancel and collect; Pubsub/Delivery.antt is what happens to a
--   message that facil.io hands over.
-- - Http: ext/iodine/iodine_http.c. Http/Names.antt, Host.antt and Scheme.antt read the parts of the
--   Rack `env`, and Http/Env/Copying.antt fills it from its template (`copy2env`);
--   Http/Headers.antt and Response.antt turn the application's answer into calls of facil.io;
--   Http/Request.antt is the handler around them, with the pausing of a request, and
--   Http/Upgrades.antt what an upgrade leaves in the storage; it uses Connection/Creation.antt.
-- - RackIo: ext/iodine/iodine_rack_io.c, the `rack.input` over an interface for the body's stream,
--   and the hijacking of a request.
-- - Query: `parse_nested_query_internal` of ext/iodine/iodine_helpers.c, up to the calls of
--   `http_add_to_params`.
-- - Params: `http_add_to_params` of ext/iodine/http.c, which files a value under a key such as
--   `user[tags][]`. Params/Tree.antt has the Hashes and Arrays, Params/Reading.antt the characters of
--   a key, Params/Adding.antt the walk, and Params/Query.antt the whole of `parse_nested_query`.
-- - Multipart: the callbacks that ext/iodine/http.c gives to the multipart parser, with the
--   temporary file of an upload, and in Multipart/Feeding.antt the loop that feeds the parser.
-- - Tcp: ext/iodine/iodine_tcp.c, the callbacks of a raw socket and the calls that set it up. It
--   fires the events of Connection, and makes its connections by Connection/Creation.antt.
-- - Defer: the tasks, timers and state callbacks of ext/iodine/iodine_defer.c.
-- - Json: ext/iodine/iodine_json.c, the callbacks that build Ruby objects while a text is parsed.
--   Hashes and Arrays are cells that the parser fills while they are referred to. Json/Tree.antt has
--   the documents, with what a parser announces of them and the objects that they stand for.
-- - Mustache: ext/iodine/iodine_mustache.c, the lookup of a template's names in Ruby data and the
--   callbacks for arguments and sections, over a record of what Ruby answers.
-- - Caller: the lock flag of ext/iodine/iodine_caller.c, and the threads of
--   ext/iodine/iodine_defer.c.
-- - Base, Ruby and Fio: shared lists, numbers and tests; the `VALUE`s of Ruby; the hash table
--   and the data stream of facil.io as records of laws, each with an instance.
--
-- How the code corresponds to the model. A function of the model has the name of the C function
-- without its prefix. Numbers are natural numbers: the counters of the pool and of the storage
-- wrap at 2^64, a timeout at 2^8, the count of a template's section at 2^32, and a subtraction
-- that could wrap in C is guarded as the code guards it. Memory is modelled where the code
-- handles it: the queue's nodes, the protocol of a wait with its `free`, the reads of the
-- `Forwarded` scan, and the strings of a response. Ruby code that is called back, facil.io and
-- the system calls are arguments, data that say what they answered, or effects; an exception in
-- Ruby is caught by `IodineCaller` and shows as the answer nil.
--
-- Fuel: the count of the queue is given more fuel than the queue has nodes, the split of a
-- header value and of a query as much as it has bytes, the loop over lines more than the body
-- has bytes, and the end of a `close` more than the threads have steps left; theorems say that
-- this is enough. A key of parameters is read with as much fuel as it has characters, to the
-- depth of five names that the code allows; the lookup of a dotted name has one step more than
-- the name has characters; the multipart loop is followed for two rounds more than the body has
-- bytes. All other loops are structural.
--
-- Not modelled: facil.io, which is another project's code; a worker of the pool that is ended by
-- `Thread#kill`; the marking callbacks of the collector; the rest of
-- ext/iodine/iodine_helpers.c, which only calls facil.io; the forking and the IO thread of
-- ext/iodine/iodine_defer.c; the loading of templates in ext/iodine/iodine_mustache.c; and
-- iodine_pubsub.c, iodine_tls.c and iodine.c of the same folder, on which the parts above do not
-- rest. The headers of a response are taken to be shorter than 2^31 bytes.
pub mod Base
pub mod Ruby
pub mod Fio
pub mod Store
pub mod WorkerPool
pub mod Scheduler
pub mod Connection
pub mod Pubsub
pub mod Http
pub mod RackIo
pub mod Query
pub mod Params
pub mod Multipart
pub mod Tcp
pub mod Json
pub mod Mustache
pub mod Caller
pub mod Defer
