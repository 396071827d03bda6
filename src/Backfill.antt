-- ===== src/Backfill.antt =====
-- internal/backfill/backfill.go: the aggregates rebuilt from the rows of order-service.
pub mod Literal
pub mod Rows
pub mod Replay
pub mod Flags
pub mod Run
pub mod Command
