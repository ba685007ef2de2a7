-- ===== src/Kmip.antt =====
-- internal/kmip: the protocol server.
pub mod Codes
pub mod Action
pub mod Fields
pub mod Lifecycle
pub mod Response
pub mod Handlers
pub mod Connections
pub mod Framing
pub mod Dispatch
pub mod Batch
pub mod Request
pub mod Trace
pub mod Service
pub mod Answer
pub mod Refusals
pub mod Changes
pub mod Creation
pub mod Secrecy
