-- ===== src/Coordination.antt =====
-- cli/src/coordination/store.ts, the in-memory Coordination Service.
pub mod Env
pub mod Errors
pub mod Validation
pub mod Workflow
pub mod Relay
pub mod Idempotency
