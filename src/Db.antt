-- ===== src/Db.antt =====
-- The key-value database of db/interface.go as the storage sees it through db/prefixeddb: keys are
-- byte strings, each namespace is a table of its own, and iteration hands out keys that depend on
-- the database behind the prefix.
mod Keys
mod Tables
pub mod Order
pub mod InMemory
unfoldable pub use Keys.*
unfoldable pub use Tables.*
