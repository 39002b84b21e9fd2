-- ===== src/TransferIo.antt =====
-- The page's side of staged downloads and of picked files: site/transfer-io.ts.
pub mod Rpc
pub mod Sink
mod Pending
mod Settled
mod Staging
mod Tests
