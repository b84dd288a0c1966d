-- ===== src/Storage.antt =====
-- The storage package (storage/*.go): the queues through which a ballot passes, their reservations,
-- the vote statuses, the statistics and the processes.
pub mod Types
pub mod Store
pub mod Reservations
pub mod Stats
pub mod Processes
pub mod Status
pub mod Ballots
pub mod Verified
pub mod Batches
pub mod Transitions
pub mod Retry
pub mod Recovery
pub mod Cleanup
pub mod Artifacts
pub mod Workers
pub mod Results
pub mod Invariant
pub mod Operations
