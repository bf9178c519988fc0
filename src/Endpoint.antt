-- ===== src/Endpoint.antt =====
-- crates/kobako-runtime/src/endpoint: the host's side of the ABI.
pub mod MemoryCap
pub mod Capture
pub mod Buffer
pub mod Errors
pub mod Instance
pub mod Replies
pub mod Dispatch
pub mod Invoke
mod Runs
