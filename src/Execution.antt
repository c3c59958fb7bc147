-- ===== src/Execution.antt =====
-- Executions (api/app, api/infra, shared): what is run for a source, and the ledger of what was run.
pub mod Target
pub mod Trigger
pub mod Ledger
pub mod Status
pub mod Recorder
pub mod Tests
