-- ===== src/Tests.antt =====
-- Concrete runs: one for each theorem with hypotheses, and small tests of the definitions.
mod Data
mod Ledger
mod Policy
mod Config
mod Limits
mod Verify
mod Handler
mod Robots
mod Cli
