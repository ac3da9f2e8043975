-- ===== src/Verification.antt =====
-- sdk/protocol/src/lib/verification.ts: what a Verifier checks of an Action Package.
pub mod Env
pub mod Formats
pub mod Envelope
pub mod Structure
pub mod Payload
pub mod Times
pub mod Approvals
pub mod Package
mod Tests
