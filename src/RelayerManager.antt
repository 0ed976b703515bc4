-- ===== src/RelayerManager.antt =====
-- relayer/src/services/relayer-manager: EVMRelayerManager. The state and the methods stand in
-- State, Create, Fund and Operations; the proofs in the modules below Consistency and beside it.
pub mod State
pub mod Create
pub mod Fund
pub mod Operations
pub mod Consistency
pub mod Lifecycle
pub mod Funding
pub mod Listing
