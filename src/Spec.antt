-- ===== src/Spec.antt =====
-- The specification package (spec/): the parameters of a process as field elements, the keys of the
-- state, and the hashes over them.
pub mod Params
pub mod Ballots
pub mod Keys
pub mod Root
