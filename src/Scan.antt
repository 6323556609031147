-- ===== src/Scan.antt =====
-- crates/memo-scan/src: the search for the contract's deployment (utils.rs) and the scan of blocks
-- for memos (scan.rs).
pub mod Deployment
pub mod Batches
pub mod Blocks
