-- ===== src/Sequencer.antt =====
-- The sequencer (sequencer/).
pub mod ProcessIds
