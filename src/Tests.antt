-- ===== src/Tests.antt =====
-- Concrete runs of the methods, each an application of a theorem.
pub mod Data
mod Queues
mod Handouts
mod Restart
mod Statuses
mod Workers
mod Endpoints
mod Transactions
mod Memory
mod Specification
