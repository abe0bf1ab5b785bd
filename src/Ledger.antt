-- ===== src/Ledger.antt =====
-- internal/ledger: events (ledger.go), the ledger that buffers them (async.go), and what the ledger in a
-- database makes of them (dialect.go, sql.go).
pub mod Event
pub mod Async
pub mod Dialect
pub mod Rows
