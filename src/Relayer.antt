-- ===== src/Relayer.antt =====
-- crates/shielder-relayer: fees, quotes, prices, and the relaying of withdrawals.
pub mod Decimal
pub mod Fee
pub mod QuoteCache
pub mod TokenKind
pub mod Prices
pub mod Trace
pub mod DryRun
pub mod Worker
pub mod Service
pub mod Recharge
pub mod Monitor
pub mod Config
