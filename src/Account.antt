-- ===== src/Account.antt =====
-- crates/shielder-account: actions, secrets and the account of one token.
pub mod Action
pub mod Secrets
pub mod State
pub mod Preimages
pub mod Balance
pub mod History
pub mod Nullifiers
