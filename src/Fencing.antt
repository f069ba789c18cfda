-- ===== src/Fencing.antt =====
-- internal/fencing: monotonic fencing tokens. `Token` models token.go, `Storage` storage_validator.go
-- and `LeaseManager` lease.go. Times are nanoseconds, and each operation that reads the clock takes
-- the time; the mutexes make each operation one step.
pub mod Token
pub mod Storage
pub mod LeaseManager
