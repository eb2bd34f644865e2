-- ===== src/Lib.antt =====
-- nscale scales Nomad jobs to zero when nobody uses them and wakes them on the next request. The
-- proxy takes a request, looks the job up in the registry, asks the coordinator for an endpoint,
-- which wakes the job where it is dormant, and relays the request. The controller scales idle jobs
-- down under a lock that the replicas share. The event processor follows Nomad's events, the traffic
-- probe reads Traefik's counters, and the job mutator prepares the jobs that are submitted.
--
-- How the program is modelled. An action on what lies outside a component (Redis, Nomad, Consul, the
-- clock, the other tasks) is a function on a state `W` about which nothing is assumed, and what
-- returns `Result<A>` is an `Exec W A` (Core/Effect). Interfaces are records of such actions: the
-- traits of nscale-core (Core/Traits) and the services that components call (Core/Services). Clients
-- of third-party crates are records of calls, and what a theorem relies on is a record of laws about
-- them, filled by a concrete instance in the tests. Logging, tracing spans and the construction of
-- HTTP clients are not modelled.
--
-- The files, and the code that they are about:
--   Prelude: shared names, tests, lists, maps as functions, texts (Prelude/Text) and JSON values
--     (Prelude/Json).
--   Core: crates/nscale-core/src. Job (job.rs), Error (error.rs), Traits (traits.rs), InFlight
--     (inflight.rs; counters wrap at 2 ^ 64), Config (config.rs); Effect, Services and Samples serve the other files.
--   Waker: crates/nscale-waker/src. State (state.rs); Coordinator, the shared state of coordinator.rs
--     and its operations; Tasks, `ensure_running` and `run_wake_task` as steps of one task, each one
--     access to shared state; System, the interleavings of any number of tasks as a step relation.
--     Claims, Invariant, Coalescing, Delivery, LateSubscriber, Permits, Rewake, Progress, Completion and
--     Operations hold the theorems. A
--     broadcast channel is the mailboxes of its receivers. Wake-ups and timeouts are steps that may happen at
--     any time, so nothing depends on durations. The accesses of the other operations (`mark_dormant`,
--     `invalidate`, `refresh_endpoint`) come in between in any order.
--   Store: crates/nscale-store/src. Registry (registry.rs) with Caching, RoundTrip, Removal,
--     Others, Forgetting, Contents, History, Hydration and Recovery, which puts etcd behind it;
--     Activity (activity.rs) with Locks, Instance and Idle; AutoDeregister (auto_deregister.rs); Redis, the
--     hashes and the codec that the registry relies on; Memory, a Redis in memory for the tests.
--   Scaler: crates/nscale-scaler/src. Controller (controller.rs) with Run, Guards, Missing,
--     Lock (over the activity store) and Threshold (over the counter of AutoDeregister),
--     EventProcessor (event_processor.rs) with Seen, TrafficProbe
--     (traffic_probe.rs) with Totals.
--   Etcd: crates/nscale-etcd/src/client.rs, the durable registry, with Laws, Removal and
--     Memory, an etcd in memory for the tests.
--   Nomad: crates/nscale-nomad/src. JobMutator (job_mutator.rs) with Tags, Routers and
--     Registrations; Models (models.rs); Client (client.rs) with Endpoints and Answers; Events
--     (events.rs), the consumer of the event stream, with Loop, Lines, Replay, Chunks,
--     Failures and Resume. What a stream gives is a list, in which a
--     cancellation stands at its place.
--   Consul: crates/nscale-consul/src (client.rs, catalog.rs, health.rs), with Wait.
--   Proxy: crates/nscale-proxy/src. Forward (proxy.rs, middleware.rs), Handler (handler.rs) with
--     Sends and Balance, Heartbeat (its task), Forwarding (proxy.rs, the forwarding itself) with Tunnel and Service
--     (the upgrade as the handler sees it), Middleware (middleware.rs).
--   Admin: src/main.rs, the handlers of the admin API: the state and the purge, with Purge; Submit, the
--     submission of a job, with Created; Sync, the registration of one job or many and the readiness
--     check.
--   Startup: src/main.rs, the connection to Redis and the registry that the program starts with, with
--     Attempts; Wiring, what each part is given, with Heartbeats; Shutdown, the end of the program.
--
-- Most loops run over a list or a text and need no fuel. Printing a number takes one unit for each
-- digit, and has one more than the number. The reader of the event stream takes a line off its buffer
-- in each round, and has a round for each byte. The wait for a healthy service has a round for each
-- nanosecond of its timeout and one more, since every request takes time. The connection to Redis
-- is tried thirty times, and has a round for each. The loop that reconnects to
-- the event stream has no end of its own, and is given the number of its rounds. Durations and
-- instants are natural numbers of milliseconds, unless a file says otherwise; the seconds in
-- floating point of the activity store are milliseconds too.
--
-- Not modelled: the log, the clients and the listeners at the start of src/main.rs, and its healthz, the loading of the configuration
-- by its library, and the copying of the bytes of bodies and tunnels.
pub mod Prelude
pub mod Core
pub mod Waker
pub mod Store
pub mod Etcd
pub mod Nomad
pub mod Scaler
pub mod Proxy
pub mod Admin
pub mod Consul
pub mod Startup
