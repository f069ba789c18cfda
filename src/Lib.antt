-- ===== src/Lib.antt =====
-- Tempest runs workflows: a workflow is a graph of steps, a run of it goes through a state machine,
-- workers lease its steps under fencing tokens, calls outside go through circuit breakers, and a
-- saga compensates the steps of a failed run. This library models the parts that decide what
-- happens, with the theorems that make each of them correct.
--
-- The files. Base holds what the parts share: numbers, lists and options (Base, Base/Lists,
-- Base/Tests), Go's integers (Base/Ints), equality (Base/Classes) and Go's maps as association
-- lists (Base/GoMap). Then one file per part, whose child modules hold the proofs:
--   * Types: pkg/types/types.go, the states of runs and steps;
--   * StateMachine: internal/statemachine/statemachine.go;
--   * CircuitBreaker: internal/circuitbreaker/circuitbreaker.go;
--   * Fencing/Token, Fencing/Storage, Fencing/LeaseManager: internal/fencing/token.go,
--     storage_validator.go and lease.go; the storage and the leases use the tokens;
--   * RingBuffer: internal/ringbuffer/ringbuffer.go;
--   * Saga: internal/saga/saga.go;
--   * Dag: internal/dag/dag.go, whose AddEdge calls hasPath;
--   * Lease: internal/lease/lease.go, leases with one holder for each resource;
--   * Types/Records: pkg/types/types.go, the records of definitions and runs;
--   * Workflow: internal/workflow/workflow.go, new runs and the steps that are ready, on the
--     records and states of Types;
--   * Lane: internal/lane/lane.go, and Lane/Drr: internal/lane/drr_scheduler.go, which takes the
--     tasks out of the lanes;
--   * Types/Events: pkg/types/types.go, events and what else is stored;
--   * MemStore: internal/persistence/memstore/memstore.go, with one child for each kind of record
--     (Definitions, Runs, Queue, Records) and Keys for the texts that key the maps; the filters are
--     from internal/persistence/interface.go;
--   * Plugin: internal/plugin/plugin.go, the registry of the step handlers;
--   * Engine, Engine/Submit, Engine/Leases: internal/scheduler/scheduler.go, which uses the store,
--     the registry and the ready steps of Workflow;
--   * Engine/Effects, Engine/Queueing, Engine/Races: what a finished lease does to the store, with
--     what it puts into the queue and with what it does to a run that has ended meanwhile;
--   * Base/Text, Base/Decimal: what the program uses of Go's strings and strconv;
--   * DeltaDiff, DeltaDiff/Pointer: internal/deltadiff/patch.go, JSON pointers and the checks of a patch;
--   * Versioning: internal/versioning/versioning.go, versions, their order and constraints;
--   * Barrier: internal/barrier/barrier.go, with the waits taken apart where the lock is given up;
--     Barrier/Calls, Barrier/Count and Barrier/Release follow the parties of each generation;
--   * Leader: internal/leader/leader.go and inmem.go, the candidates and the lease that they compete for;
--   * Examples: concrete runs.
--
-- How code becomes definitions. A struct is a record with the same fields less the mutex; a method
-- is a function from the old state to the answer and the new one, in snake case. A method that holds
-- its mutex throughout is one step; where a method lets go of it, as ExtendLease does of the
-- generator's and CompactRuns of the store's, the model takes the state at each access, and the
-- Enqueue of Lane/Drr has two parts. A time is a natural number of
-- nanoseconds, and a method that reads the clock takes it as an argument; a duration or a signed
-- setting is an integer; a uint64 counter wraps at 2 ^ 64, and the deficit of a lane, an int, at
-- 2 ^ 63. A map is an association list with one
-- entry per key. Errors are values. Callbacks, hooks and the text functions of Go's library are
-- parameters.
--
-- Fuel. The search of Dag takes 1 + the number of edges as fuel, as every edge is pushed at most
-- once; this is proved to be enough. The rounds of Lane/Drr take the list of their clock readings as
-- fuel, and a bound on how many are enough is proved. The digits of an int take
-- 19 as fuel, as an int64 has no more; that they are read back is proved. Other loops are structural.
--
-- Not modelled: the storage engines' files and SQL, the servers, the command line, metrics and
-- tracing, formatting of texts, and randomness, which do input and output; and the parts of the
-- program that no file above names.
pub mod Base
pub mod Types
pub mod StateMachine
pub mod CircuitBreaker
pub mod Fencing
pub mod RingBuffer
pub mod Saga
pub mod Dag
pub mod Lease
pub mod Workflow
pub mod Lane
pub mod MemStore
pub mod Plugin
pub mod Engine
pub mod DeltaDiff
pub mod Versioning
pub mod Barrier
pub mod Leader
pub mod Examples
