-- ===== src/Lib.antt =====
-- A model of the discrete-event simulation core: the engine that runs a simulation, the policies and
-- the backlogs that its event handlers consult, the service instances that work is reserved on, the graph
-- of calls between services, the store of the runs, and the convergence tests of the optimization.
--
-- Parts and files:
-- * internal/engine/event.go is Engine/Event (Event and the order Less) and Engine/Queue (EventQueue).
--   The heap of container/heap is the interface HeapOps of Engine/Heap; Engine/Order is about the order,
--   Engine/Fifo about events that tie.
-- * internal/engine/engine.go is Engine/State (Engine, ScheduleEvent, ScheduleAt and its kin, the
--   guards, Stop) and Engine/Loop (Run). `one_turn` is the body of Run's loop, split where the body
--   branches: `check_wall_clock`, `take_next`, `idle` for an empty queue, `process` for an event, and
--   `at_end` for the end event; `event_loop` repeats it and `run` adds the start and the deferred call.
--   Engine/Loop/Frame, Progress, Ends, Clock, Onward,
--   Latch, Finish and QueueBound are about the loop.
-- * internal/engine/run.go is Engine/RunManager.
-- * internal/resource/broker_queue.go is Broker/Shard (BrokerQueueShard), Broker/Commit (the commit
--   frontier of RecordTopicOffsetProcessed) and Broker/Registry (BrokerQueues). Broker/Shard/Calls runs
--   the methods one after another; Conserved, Bounded, Expiry, Registry/Laws and
--   Registry/Partitions are about them.
-- * internal/resource/service_instance.go is Resource/Instance; Instance/Cpu and Instance/Slots are
--   about its reservations. host.go is Resource/Host. manager.go is Resource/Manager: its state and the
--   round-robin selection, with Manager/Cache and Manager/Rotation about it, Manager/Scaling and Manager/Draining for the replicas of a service,
--   Manager/Hosts for the number and the size of hosts, Manager/Work for the calls on instances,
--   Manager/Start for InitializeFromScenario, Manager/Resizing for UpdateServiceResources. routing.go
--   is Manager/Routing.
-- * internal/policy/circuit_breaker.go, rate_limiting.go and retry.go are Policy/CircuitBreaker,
--   Policy/RateLimiting and Policy/Retry, each with its proofs in a folder beside it. autoscaling.go
--   and the Manager of types.go are Policy/Autoscaling.
-- * internal/simd/runstore.go is RunStore: RunStore/Record holds its records and settings,
--   RunStore/Start is Create and the guarded start, RunStore/Listing is ListFiltered, and
--   RunStore/Retention is CleanupNow with the trimming of candidates. onlinelimits.go
--   is RunStore/Online.
-- * internal/improvement/convergence.go and candidate_store.go are Improvement/Convergence and
--   Improvement/Candidates.
-- * internal/interaction is Interaction: Target is ParseDownstreamTarget, Graph is graph.go, and Calls
--   is the rest of resolver.go, with branching.go, manager.go and call_semantics.go.
-- * Base holds integers, tests, slices and maps that all parts share. The modules called Examples apply
--   each theorem at a concrete input.
--
-- How the parts interact: a handler gets the engine and an event and answers with commands, the events
-- to schedule and the limits it reports (`Command`, carried out by `obey`). The broker, the instances
-- and the policies are called from handlers and keep their own state, so each is modelled by itself.
--
-- State and steps: a struct is a record, a method a function from the old state to the new one with its
-- result. A method that holds its lock throughout is one step. Slices are lists, Go maps with text keys
-- are association lists, nil and Go's zero time are none. Times are natural numbers of nanoseconds;
-- `int`, `int64` and `time.Duration` are ℤ where they can be negative. The retry policy and
-- the limits of online runs compute near the ends of 64 bits, and there the wrap-around is written out;
-- elsewhere counters stay small.
--
-- Fuel and bounds: the event loop runs over a list of turns, which says what the surroundings do at each
-- (the wall clock, other goroutines during a sleep, a cancellation); Engine/Loop/Ends states how many
-- turns a limited run needs. The loop of RecordTopicOffsetProcessed runs on fuel, one more than the
-- number of pending offsets, which is enough because each turn takes one of them out. The depth-first
-- search of graph.go runs on the number of keys that it can meet; Interaction/Graph/Enough is about that.
-- ScaleOutHosts runs on the number of hosts asked for, since a turn adds a host or skips a taken name.
--
-- Parameters: container/heap (HeapOps), float64 (FloatOps and arguments for rounded results), the order
-- in which ListFiltered ranges over a map, sort.Slice,
-- strings.TrimSpace and ToLower, strconv.Itoa, fmt.Sprintf of event ids, and the payload of events and
-- messages, which these parts only pass on.
--
-- Not modelled: logging, progress snapshots and sleeping; the reports of the run manager; the event
-- handlers of internal/simd, the rest of the improvement loop,
-- calibration, metrics, workloads, configuration
-- files, and the HTTP and gRPC front ends, which are input and output.
pub mod Base
pub mod Policy
pub mod Engine
pub mod Broker
pub mod Resource
pub mod RunStore
pub mod Interaction
pub mod Improvement
