-- ===== src/Web3.antt =====
-- The access to the Ethereum nodes (web3/).
pub mod Iterator
pub mod Gas
pub mod Errors
pub mod Pool
pub mod TxManager
