-- ===== src/Lib.antt =====
-- Walnats is a library for event-driven services over Nats JetStream. Events are published to
-- streams of the server, one stream per event; actors pull the messages of an event from their
-- consumers and run handlers on them; middlewares observe the jobs. This library models its
-- parts.
--
-- * Actors (walnats/_actors): Actors/Actor has the settings of an actor (`consumer_name`,
--   `_consumer_config`, `_add`, `_get_nak_delay`), Actors/Priority the acquisition of a
--   semaphore by priority (_priority.py), and Actors/Handle the handling of a message
--   (`Actor._handle_message`); Handle/Lifecycle is about the hooks that a middleware sees (their
--   order, and in Lifecycle/Outcomes what they tell against the answers to the server),
--   Handle/Answers about the response to a request, Handle/Retries about the delays before the
--   next delivery, and Handle/Suppressed about a handler under `suppress`. Actors/Jobs has the
--   jobs of all actors on one event loop: steps of tasks that share the semaphores.
--   Actors/Listen has `_listen` and `_pull_and_handle` (Listen/Supervised with the supervisor of
--   its tasks), Actors/Pulse `_pulse` (Pulse/Signals the moments of its signals), and
--   Actors/Connection `ConnectedActors` (_connection.py); Connection/Routing follows an event
--   from its emission to the listeners. The handling is a function from a `Job`, which holds the
--   message, the settings and the outcomes of everything that is awaited, to a result and the
--   trace of its effects: acknowledgements, negative acknowledgements, semaphores, the pulse
--   task, hooks and the response. Effects has the monad.
-- * Tasks and registries: Tasks has the supervisor of tasks (walnats/_tasks.py), with what
--   happens while it waits as a list of events; Tasks/Verdicts is about what a wait comes to.
--   Registry is what both registries share, and Actors/Registry and Events/Registry have each
--   (walnats/_actors/_registry.py, walnats/_events/_registry.py).
-- * Contexts (walnats/_context.py, _constants.py): Context has what hooks read of a message.
-- * Middlewares (walnats/middlewares/_base.py, _wrappers.py): Middlewares/Base has the interface
--   with the state of a middleware, Middlewares/Threshold `ErrorThresholdMiddleware`, and
--   Middlewares/Frequency `FrequencyMiddleware`. The time is an argument of the hooks.
--   Middlewares/Hooked runs the hooks of a middleware with effects; Middlewares/Logs has those
--   of _middlewares.py, and Middlewares/Metrics, Middlewares/Sentry and Middlewares/Traces those
--   of _integrations.py, whose calls of the clients are effects.
-- * Events (walnats/_events): Events/Event has events and stream configurations (_event.py,
--   _limits.py), Events/Sync the registration of streams (`BaseEvent._sync`,
--   `ConnectedEvents.register`), Sync/Concurrent its tasks in any order (Concurrent/Agreement
--   compares them with `register`), Events/Codec the encoding of messages and responses,
--   Events/Monitor `monitor` and `_monitor`, Events/Headers the headers of a message
--   (`ConnectedEvents._make_headers`; Headers/Sent is about those of a message with a
--   `CloudEvent`), Events/Emission `emit` and `request` of `ConnectedEvents` as traces of the
--   calls of the client (_connection.py), Events/CloudEvent `CloudEvent`, and Events/Clock
--   `Clock`. The server is a parameter, an interface of two calls; Events/Sync/Server has what
--   is assumed of it, Sync/Specification what `_sync` promises then, and Tests/Events a server
--   in memory that fulfils it. Errors translates its errors (walnats/_errors.py).
-- * Serializers (walnats/serializers): Serializers/Wrappers has `GZipSerializer`,
--   `FernetSerializer` and `HMACSerializer` (_wrappers.py) over parameters for compression,
--   encryption and digests (Wrappers/Stacks nests them), and Serializers/Registry the choice of
--   a serializer (_registry.py, and `new` in _serializers.py), and Serializers/Kinds the
--   encoding of each class (_serializers.py, _optional.py) over parameters for JSON and the
--   other packages. Serializers/Instances joins both: the serializer that a schema gets.
-- * Linter (walnats/_linter): Linter/Tree has the nodes of Python's `ast`, Linter/Finders the
--   checks (_finders.py, _violation.py; Finders/Streams is about the streams of events whose
--   names pass), and Linter/Checker the rows for flake8 (_checker.py).
-- * Decorators (walnats/decorators): Decorators/FilterTime has `filter_time`,
--   Decorators/RateLimit `rate_limit` as steps of tasks and of time, Decorators/Require
--   `require` over the answers of its predicate, and Decorators/Suppress `suppress`.
-- * Services (walnats/_services.py): Services has the description of a system, Services/AsyncApi
--   its AsyncAPI specifications (AsyncApi/Combined is about the one of all services) and
--   Services/Diagram its d2 diagrams. Services/Example is the system that examples/diagram.py
--   describes.
--
-- Exceptions has Python's exceptions as values: subclasses of `Exception`,
-- `asyncio.CancelledError` and other `BaseException`s. A subclass of `Exception` is told by its
-- name: `except asyncio.TimeoutError` tests the name, without subclasses. Prelude has the shared
-- helpers: tests, lists, dictionaries as association lists in which the first entry of a key
-- counts (as a quotient, without their order, in Prelude/Mapping), and texts. Tests has small
-- runs, and every result below that has conditions, at concrete data.
--
-- All functions are structural recursions, so that no fuel is needed. `Clock.run` is modelled
-- over the rounds that it makes before it is cancelled, as are `_listen` and `_pulse`. Times,
-- delays and limits are natural numbers of milliseconds or of any one unit, where the source has
-- floats or integers. The tasks of `register` are run to their ends one after the other in
-- Events/Sync, and in any order of their calls in Sync/Concurrent. A coroutine that is started
-- as a task counts as one effect at its start.
--
-- Not modelled: the package exports, which are imports only, and the tests, the documentation
-- and the other examples, which are no part of the program. Interleavings are modelled for the
-- jobs on the semaphores, the tasks of `register` and `rate_limit`; elsewhere the outcomes of
-- what is awaited are given.
pub mod Prelude
pub mod Exceptions
pub mod Effects
pub mod Errors
pub mod Context
pub mod Middlewares
pub mod Events
pub mod Tasks
pub mod Registry
pub mod Actors
pub mod Linter
pub mod Serializers
pub mod Decorators
pub mod Services
pub mod Tests
