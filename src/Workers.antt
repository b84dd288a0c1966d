-- ===== src/Workers.antt =====
-- The workers that verify ballots for the sequencer (workers): who they are, when they are banned, and
-- the jobs that they hold.
pub mod Manager
pub mod Jobs
