-- ===== src/Types.antt =====
-- Values of the types package (types/) that stand outside the storage.
pub mod HexBytes
