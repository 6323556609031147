-- ===== src/Setup.antt =====
-- crates/shielder-setup/lib.rs: the contract version and the protocol fee.
pub mod Version
pub mod ProtocolFee
pub mod FeeRounding
