-- ===== src/Lib.antt =====
-- IMIP, the Institutional Mining Intelligence Platform: a model of the two parts of its core that every
-- other part stands on and of two authorities, and what can be proved of them.
--
-- The platform is a set of authorities (core/*), each a TypeScript package. They talk through one event
-- bus (core/event_bus/src), and one orchestrator (core/runtime_bootstrap/src) starts them in the order of
-- their dependencies, verifies that they are ready, certifies the whole, and stops, restarts and recovers
-- it, publishing what it does on the bus.
--
-- Base: the shared vocabulary. Numbers are the native ones; `Dict` is the JavaScript `Map` from texts, in
--   the order in which keys were first set; `Result` is the outcome of a method that may throw; `Counts`
--   compares lists as bags; `Arrays` is for arrays written at an index; `Keyed` is for a `Map` that holds
--   each value under its own id. `Actions` has the methods of an object: an action changes the state and
--   returns or throws, and keeps what it wrote before the throw; there are its rules of proof.
--
-- EventBus: core/event_bus/src.
--   Types: types.ts and errors.ts. A payload is of a type `P`; an error carries its arguments.
--   Queue: queue.ts, the heap of pending events (enqueue, dequeue, bubbleUp, bubbleDown). Its loops have
--     fuel, the length of the array or one more: every round moves one level up or down.
--   Registry: registry.ts. Subscriptions: subscriptions.ts. Persistence: persistence.ts, the modes `none`
--     and `memory`.
--   Bus: the state of InstitutionalEventBus.ts, the subscribing calls, and the tests and the envelope of
--     `publish`. Delivery: dispatchNow and invokeSubscriber. Publish: publish. Drain: drainQueue, on fuel,
--     of which one more than there are waiting events is enough as long as the handlers publish nothing.
--   A handler is a parameter: a function that takes the bus and gives it back, so it may call the bus.
--   Handlers run one after the other, and what one of them did is recorded before the next begins; in the
--   source all are started before the first success is recorded, so that only there a handler that is
--   started later does not see the failure counts of those before it. A subscription's filter answers and
--   does not throw. The clock, `randomUUID` and measured times come in as arguments.
--
-- Runtime: core/runtime_bootstrap/src.
--   Types: types.ts and errors.ts. Lifecycle: lifecycleStateMachine.ts. Graph: dependencyGraph.ts, Kahn's
--     algorithm on fuel, one round more than there are components, of which each round takes one out.
--     Board: governanceBoard.ts. Certification: certification.ts.
--   Startup, Orchestrator, Booting, Requests: RuntimeOrchestrator.ts, in this order its loops over the
--     components, its state and private methods, `boot`, and the other operations. An operation is an
--     action, which changes the orchestrator and returns or throws; `Orchestrator/Ends` has the rules by
--     which actions are proved. `Request` and `perform` are the calls that a client can make.
--   What a component's functions do is a parameter: they read and change a world, and the clock is read
--   off that world. checkReadiness and checkHealth neither change it nor throw.
--
-- Resources: core/resource_authority/src, which says who may use how much of which resource.
--   Types: types.ts, errors.ts, and the names of providers.ts and events.ts. Lifecycle: lifecycle.ts.
--     Availability: availability.ts. Allocation: allocation.ts. Reservation: reservation.ts. Candidates:
--     the choice of a resource in these two. Ownership: ownership.ts. Registry: registry.ts. Utilization:
--     utilization.ts. Forecast: forecast.ts.
--   Authority: the state of ResourceAuthority.ts and the small steps of its methods. Authority/Requests:
--     requestReservation and requestAllocation. Authority/Releases: activate, release, expireReservations.
--     Authority/Synchronisation: syncFromHardwareInventory. A method that is long is cut in named steps.
--     Authority/Within and Authority/Atomic have the proofs; `Steps` are the runs of an authority.
--   Capacities are whole units; an end of time is the last millisecond of the year 9999, as in the source.
--   The order of `localeCompare` is the option `precedes`, what power and thermal management say are
--   options too, and new ids are arguments. An audit record or event carries ids, states and capacities,
--   not the other details. A percentage is the fraction before it is divided.
--
-- Scheduling: core/scheduling_authority/src, which says when what is executed.
--   Types: types.ts, errors.ts and events.ts. Lifecycle: lifecycle.ts. Retry: retry.ts. TimeEvaluator:
--     timeEvaluator.ts. DependencyGraph: dependencyGraph.ts, whose search for a cycle has fuel, one more
--     than the graph has keys: a path without a repetition is no longer. TimeGraph: timeGraph.ts.
--     Registry: registry.ts. Evaluators: evaluators.ts.
--   Authority, Execution, Calls, Tick: SchedulingAuthority.ts, in this order its state and small steps, the
--     execution with its retries, the operations that a client calls, and `tick`.
--   A handler is a parameter, a function on a world, from which the clock is read too. A moment is a number
--   of milliseconds; `to_iso_string` throws on one that is beyond the last date, as `toISOString` does, and
--   `Resting` says where that leaves a schedule. The clock and the callers of `tick` give valid dates;
--   intervals and delays are whole and not negative. Evaluators and conditions answer and do not throw. A
--   call runs to its end before the next. Random
--   execution ids, durations, the diagnostic log, and the reasons that pause and resume pass on are left
--   out.
--
-- Not modelled: the file mode of the event history (it reads and writes a file); the averages of
-- getMetrics and other read-only views, among them the digital twins, recommendations and metrics of
-- the resources; how long things took; that the bus refuses an event of the orchestrator or of
-- the scheduler; two operations of the orchestrator or of the scheduler that overlap; listeners on the
-- events of the resources; the other authorities.
pub mod Base
pub mod EventBus
pub mod Runtime
pub mod Resources
pub mod Scheduling
