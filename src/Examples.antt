-- ===== src/Examples.antt =====
-- The theorems at concrete inputs, and runs of the definitions.
mod StateMachine
mod CircuitBreaker
mod Fencing
mod Containers
mod Saga
mod Dag
mod Lease
mod Workflow
mod Lane
mod MemStore
mod Engine
mod Text
mod Barrier
mod Leader
