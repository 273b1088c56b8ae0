-- ===== src/Lib.antt =====
-- StreamFenceJs: the delivery core of the server, and the rules for its settings.
--
-- The server publishes messages to the topics of Socket.IO namespaces. For every client and topic a
-- lane queues the messages within the limits of a policy, and decides what happens on overflow;
-- under AT_LEAST_ONCE an ack tracker holds the messages that were sent, and decides when one is sent
-- again or given up. The policies come from namespace specifications that are checked when built.
--
-- Policy, Message: src/DeliveryMode.ts, src/OverflowAction.ts, src/internal/config/TopicPolicy.ts,
--   src/internal/protocol and the records of src/internal/delivery. A LaneEntry object is shared by
--   a lane and the tracker, which write its `retryCount` and `awaiting`: it is an identity with its
--   fixed part, and the two fields are cells of a `Heap`, which the operations pass on.
-- Spill: what a lane relies on of its disk queue, src/internal/delivery/DiskSpillQueue.ts: a record
--   of operations with one law, that `recover` returns no more entries than it is asked for.
-- DiskQueue: src/internal/delivery/DiskSpillQueue.ts. The file system and JSON are parameters;
--   DiskQueue/Reliable says what is relied on of the file system. A write that is not awaited is
--   pending in `flush_promises`. `recover` and `clear` are composed as if no other call ran between
--   their awaits; DiskQueue/Interleaving is about a `spill` that does, and
--   DiskQueue/Reordering about the order of the writes.
--   DiskQueue/Calls has the calls of a queue and of a plain list; DiskQueue/Interface makes the queue
--   one that a lane takes. FileNames has the names of its files, and what the language does with
--   them: `sort`, `endsWith`, `replace`, `parseInt` and `padStart`.
-- Directories: the directories of the disk queues and the lane factory, in src/StreamFenceServer.ts and
--   src/internal/delivery/DiskSpillQueueFactory.ts.
-- Lane: src/internal/delivery/ClientLane.ts, with the theorems in Lane/. `enqueue` is cut at its
--   early returns (`enqueue_coalescing`, `enqueue_fitting`, `overflow`); `poll_resume` and
--   `refill_from_disk` are what runs after an await.
-- Ack: src/internal/delivery/AckTracker.ts, with its heap of deadlines in Ack/Expirations and the
--   theorems below both. `Map` is Prelude/Dict, an association list in the order of insertion.
-- Namespace: src/NamespaceSpec.ts, its setters in Namespace/Builder; a thrown error is a value of
--   Prelude/Throwing.
-- Topics, Sessions: src/internal/delivery/TopicRegistry.ts, ClientSessionState.ts and
--   ClientSessionRegistry.ts (Sessions/Registry). A `Set` is a list without repetitions.
-- Spill/Entry: src/internal/delivery/SpilledEntry.ts, up to the JSON text.
-- Events: src/ServerMetrics.ts, src/ServerEventListener.ts and
--   src/internal/observability/ServerEventPublisher.ts, as values for a log.
-- Publisher: the calls of a listener by src/internal/observability/ServerEventPublisher.ts.
-- Prom: src/PromServerMetrics.ts, over prom-client as a parameter. Prom/Measures says what each counter
--   measures.
-- Dispatcher: src/internal/delivery/TopicDispatcher.ts over the lanes, the sessions and the tracker.
--   Dispatcher/Publish, Retries and Drain are its methods; a drain is cut at its awaits, and what it
--   waits for is a `Task`. Dispatcher/Step has one step for each call from outside and one for a task
--   that runs; the order of the tasks, the time and which sends and awaits fail are free. A session
--   object that a drain holds after its client has left the registry is kept in `detached`.
--   `publish` and `publishTo` leave a state also where they throw, as the creation of a lane with a
--   disk queue may: their result is the state and the message of the error, if there is one. What
--   creates a disk queue is a part of the platform, a parameter; each call in a run of steps may have
--   another one. Dispatcher/Sending carries what one enqueueing keeps through both.
-- RetryService: src/internal/delivery/RetryService.ts.
-- Transport: src/internal/transport/NamespaceHandler.ts over the dispatcher. A handler hears of a
--   socket's requests from its connection to its cleanup.
-- Bootstrap: src/internal/transport/SocketServerBootstrap.ts, over the HTTP and Socket.IO servers as
--   a parameter.
-- Tokens: src/internal/security/StaticTokenValidator.ts and TokenExtractor.ts, src/AuthDecision.ts;
--   the regular expression of the header is written out as functions on texts.
-- Limiter: src/internal/security/AuthRateLimiter.ts.
-- Server: src/TlsConfig.ts, src/StreamFenceServerSpec.ts and the enums of a server's settings.
-- Config: src/internal/config/SpecMapper.ts and the raw types beside it. The five parsers share
--   `parse`, with a table of the enum's texts.
--   Config/Loader is src/internal/config/ServerConfigLoader.ts; the files and the two parsers are a
--   parameter.
-- Builder: src/StreamFenceServerBuilder.ts.
-- Lifecycle: src/StreamFenceServer.ts. The handlers of a server share its dispatcher: an `Endpoint`
--   is a handler without it. A start that overlaps another is left out.
--   Lifecycle/Handlers has the map of `onMessage` and the getters.
-- Tests: the theorems at concrete inputs.
--
-- Numbers are natural numbers where the settings are validated; the settings themselves are integers
-- (Prelude/Int), and fractions, NaN and infinity are left out. `queuedBytes` stops at 0 in the source
-- as subtraction does here; `tryCoalesce` does not stop there, and subtracts a queued entry's bytes,
-- which are part of the sum on every lane with exact counts. Numbers that the source keeps in a
-- double, as sequence numbers and counters, are exact here; they are so up to 2 ^ 53 there.
--
-- Not modelled: the sockets, node's file system, prom-client and what a listener does, which are
-- parameters; other calls of a disk queue between the awaits of its `recover` and `clear`, and
-- files whose JSON is not an entry's data; what the handlers of `onMessage` do, which nothing
-- calls, and what the drains of a server that was stopped still send.
--
-- Fuel: `bubble_up_loop` has the index it starts at and goes to a smaller index in each round;
-- `bubble_down_loop` has the length of the array and goes to a larger index; `collect_loop` has one
-- more than the handles and the allowed retries together, and each round takes a handle, and puts
-- one back only for a retry. The theorems on their results hold with this fuel: no loop stops early.
pub mod Ack
pub mod Bootstrap
pub mod Builder
pub mod Config
pub mod Directories
pub mod DiskQueue
pub mod Dispatcher
pub mod Events
pub mod FileNames
pub mod Lane
pub mod Lifecycle
pub mod Limiter
pub mod Message
pub mod Namespace
pub mod Policy
pub mod Prelude
pub mod Prom
pub mod Publisher
pub mod RetryService
pub mod Server
pub mod Sessions
pub mod Spill
pub mod Tests
pub mod Tokens
pub mod Topics
pub mod Transport
