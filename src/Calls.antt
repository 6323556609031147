-- ===== src/Calls.antt =====
-- The contract calls of crates/shielder-account/src/call_data.rs, and the commitments of
-- crates/shielder-contract/src/lib.rs that their proofs bind.
pub mod Types
pub mod Commitment
pub mod Knowledge
pub mod Dispatch
pub mod Prepared
