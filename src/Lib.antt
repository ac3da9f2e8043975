-- ===== src/Lib.antt =====
-- MPAS, the Multi-Party Authorization System: a protocol in which a Proposer submits an Action
-- Package, Signers decide on it, and a Verifier evaluates its policy and dispatches the action.
--
-- The parts and how they interact. The Verifier (cli/src/adapter) verifies the package
-- (sdk/protocol/src/lib/verification.ts, over the strict JSON parser of sdk/protocol/src/utils and the
-- signature suites), checks the Proposer and the policy with the policy engine (sdk/protocol/src/lib/policy-engine.ts), and dispatches an action through
-- its dispatch ledger (cli/src/adapter/dispatch-ledger.ts). Where approvals are missing, the
-- Coordination Service (cli/src/coordination/store.ts) collects the decisions of the Signers and
-- evaluates the approval expression (sdk/protocol/src/lib/approval-requirements.ts) after each.
--
-- The files:
--   Prelude       list, option, map and test helpers that the parts share. A JavaScript `Map` is an
--                 association list in the order of first insertion.
--   Mpas          sdk/protocol/src/types/mpas.ts: the data types. JSON stands over a type of numbers,
--                 and Mpas/Numbers is the interface to JavaScript's numbers.
--   StrictJson    sdk/protocol/src/utils/strict-json.ts: `strictJsonParse`; Scan has its characters.
--   Suites        sdk/protocol/src/lib/signature-suites.ts, did-jwk.ts and `verificationKid` of
--                 signer.ts: public keys, compact JWS and the keys of did:jwk identities.
--   Verification  sdk/protocol/src/lib/verification.ts: Formats has its regular expressions, Envelope,
--                 Structure, Payload, Times and Approvals the checks on the artifacts, and Package
--                 `verifyActionPackage`; Package/Backing joins it to the policy engine.
--   Approval      approval-requirements.ts: `evaluateApprovalRequirements`.
--   Policy        policy-engine.ts: `checkProposerAuthorization`, `evaluatePolicy`; Evaluation has the
--                 requirement trees, Conditions and Pointer the conditions of policy entries.
--   Ledger        dispatch-ledger.ts: `DispatchLedger` over its journal; History runs submissions,
--                 outcomes and restarts in any order.
--   Coordination  store.ts: the approval workflows of `CoordinationStore`; stored actions are shared
--                 objects, so the two maps hold positions in one list of them. Workflow/History runs
--                 creations, decisions, cancellations and polls in any order. Relay has its relayed
--                 actions and deliveries: Records the stored data, Polling the polls, with Pages
--                 on their pages, PollLoop the loop of sdk/protocol/src/lib/action-relay-client.ts
--                 in which a participant polls, and History runs of all calls.
--                 Idempotency has its cache of runs by idempotency key.
--   WorkflowStore sdk/protocol/src/lib/workflow-store.ts: `MemoryWorkflowStore`, in which the Proposer's
--                 bridge keeps its workflows. Histories leave purges out.
--
-- Errors that the code throws are values of `Result` or `Option`; their messages are left out. Times
-- are arguments: `now` in milliseconds, `at` as written down. The decimal text of an array index
-- has one unit of fuel for each unit of the index and one more, and each digit takes one. The parser
-- has two units of fuel for each character and two more: a nested call without a character between
-- happens at most once for each.
--
-- Not modelled: hashing, canonicalisation and the primitives of node:crypto, jose and `Buffer`
-- (parameters in Coordination/Env, Suites and Verification/Env), floating point (a parameter), making
-- signatures and keys, HTTP message signatures, HTTP, files, OAuth, the MCP bridges, the installer and the code generator;
-- validation of policy files, the parsers and fingerprints of routing.ts; sorting by locale
-- (`listRecoverableWorkflows`). A delivery cursor is an exact number: `Number` rounds it above 2 ^ 53.
pub mod Prelude
pub mod Mpas
pub mod Approval
pub mod Policy
pub mod Ledger
pub mod Coordination
pub mod WorkflowStore
pub mod StrictJson
pub mod Suites
pub mod Verification
