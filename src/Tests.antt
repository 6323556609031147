-- ===== src/Tests.antt =====
-- The properties at concrete inputs.
pub mod Fixtures
pub mod Codec
pub mod Inputs
mod Setup
mod Account
mod Calls
mod Relayer
mod Service
mod Scan
pub mod Indexer
mod Client
mod Upkeep
mod Keys
mod Revoker
mod Prover
pub mod PowersOfTau
mod Program
mod Remote
mod Config
mod Endowed
