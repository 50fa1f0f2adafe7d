-- ===== src/Lib.antt =====
-- ncaf, an actor library for C++ with remote actors: a model of its actors, its schedulers, its
-- registries and its network protocol.
--
-- An actor (include/ncaf/internal/actor.h) owns a mailbox. Any thread may push a message; the
-- push that finds the actor not activated hands it to a scheduler (scheduler.h), which calls
-- PullMailboxAndRun. A node keeps its actors in a registry (actor_registry.h,
-- src/ncaf/internal/actor_registry.cc), itself an actor. The registry of a node asks another
-- one, or an ActorRef (actor_ref.h) asks it, by requests that are written with serialization.h
-- and carried by a MessageBroker (network.h, network.cc), which has a thread for sending and one
-- for receiving. What a request makes or calls is found in the table of handlers of
-- remote_handler_registry.h.
--
-- Files, and what they are about:
-- - Actor: the members of `Actor` and each atomic access to them as a step, so that all
--   interleavings of PushMessage, AsyncDestroy, TryActivate and PullMailboxAndRun are runs. The
--   accesses take effect in one order, which is more than the memory orders of the code ask for.
--   Its children: Tally and Invariant count the calls at each point, Order and Delivery are
--   about what is executed, Budget about how much, Progress and Rest about how the calls end.
--   Actor/Activation has the four operations as functions, Actor/Executes and Actor/Refines
--   relate them to the steps. A message is a number. Actor/Calls has the messages of
--   CallActorMethod with the user's object, which their Execute reads and writes.
-- - Pool: WorkSharingThreadPoolBase with its two queues, its workers as steps; the environment
--   that AnyStdExecScheduler fills and that get_priority and get_scheduler_index read;
--   SchedulerUnion. Pool/Progress and Pool/Served are about how the workers empty a queue,
--   Pool/Stopping about how they end when the destructor joins them.
-- - Serde: Bytes and Buffer are BufferReader and BufferWriter, with size_t's wrap-around;
--   Message is the protocol of requests and replies; Codec is what is assumed of reflect-cpp and
--   Cap'n Proto; Hex is BufferToHex.
-- - Util: LockGuarded is LockGuardedMap of util.h and LockGuarded/Set its LockGuardedSet,
--   Semaphore its Semaphore, each access to the shared members a step.
-- - Network: `MessageBroker`, a record with one function for each operation. Network/Loops has
--   what the threads do in a round, Network/Receiving the receiving thread's loop over rounds. A
--   round of SendProcessLoop takes what is queued when it begins. Network/Sender is the
--   operation that SendRequest's sender connects to, Network/Sockets when a socket is there.
--   Network/Cluster has many brokers and the messages between them: one queued operation, or one
--   message, at a time, in any order; its children Sendings, Found, Answered and Liveness follow
--   a request to its answer. Network/Ending has ClusterAlignedStop and the destructor beside the
--   two threads of the broker, each access to what they share a step; Kept, Invariant, Asked and
--   Returned are about what holds when it returns, Ready, Progress and Liveness about how it
--   can.
-- - Registry: ActorRegistryRequestProcessor on its own node. Registry/Serving is
--   HandleNetworkRequest with its handlers, Registry/Asking what CreateActor and
--   GetActorRefByName do for another node: a coroutine is a function up to its co_await and one
--   from there on. Registry/Teardown is AsyncDestroyAllActors.
-- - Remote: the table of handlers, RemoteFuncHandlerRegistrar and the two handlers that it
--   generates.
-- - Ref: the methods of ActorRef, its Reflector and Parser, and Ref/Union is ActorRefReader's
--   choice of a member (actor_ref_serialization/).
-- - Lifecycle: the construction and destruction of ActorRegistry, and the global registry;
--   Lifecycle/Starting has the public constructors and the forms of Init.
-- - Reflect: the searches of reflect.h.
-- - Logging: levels, loggers and NCAF_DUMP_VARS. Logging/Global is GlobalLogger with what uses
--   it, ConfigureLogging (src/ncaf/internal/actor_registry.cc) and the terminate handler among
--   them, Logging/Throwing is ThrowStream with the macros that throw it.
-- - Common: exceptions as values, std::unordered_map, signed numbers, tests and lists. Examples:
--   concrete inputs.
--
-- Bounds and fuel: pending_message_count_ is a number modulo 2^64, and the theorems about it are
-- for fewer than 2^64 - 1 pushes; buffers are shorter than 2^63 bytes, as a std::string is; the
-- count of a Semaphore stays within int64_t. The loop of GenerateRandomActorId has fuel, enough
-- when it covers the first output that is no actor's; that of GetActorMethodIndex has the number
-- of methods. In Network/Cluster the counters of requests do not wrap, zmq neither loses nor
-- doubles a message, and SendProcessLoop's last look at an operation belongs to the step that
-- sends it. The mailbox is a list: the vendored queue may report that it is empty at any time,
-- and else gives the oldest message. The pool's blocking queue gives any operation that it
-- holds, or none.
--
-- Parameters: what users' functions return or throw, the codec of a type, the texts of errors,
-- the clock, the outputs of the random generator, the hashes of integers, whether zmq takes a
-- message and can use an address, which files spdlog can open and which messages it lets
-- through.
--
-- Exceptions are values; a handler that catches std::exception lets the value `foreign` go on.
-- What is undefined behaviour in C++, a call through a null pointer or an access out of bounds,
-- is a value of its own.
--
-- Not modelled: memory orders weaker than sequential consistency; the vendored queues under
-- 3rd_lib; the sender and scheduler types over std::execution, and its async_scope; reflection
-- on types; how spdlog formats and writes a message; the texts of most exceptions, which are
-- values by the check that throws them. Node, the two members that serve requests, always has a
-- broker, as it does in distributed mode.
pub mod Common
pub mod Actor
pub mod Serde
pub mod Util
pub mod Network
pub mod Registry
pub mod Lifecycle
pub mod Logging
pub mod Pool
pub mod Ref
pub mod Reflect
pub mod Remote
pub mod Examples
