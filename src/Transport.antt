-- ===== src/Transport.antt =====
-- crates/kobako-transport: the fixed tier of the wire. Each message has a module with its encode
-- and decode; the laws stand in the modules below it.
pub mod Abi
pub mod Bytes
pub mod Tag
pub mod Request
pub mod Preamble
mod Runs
pub mod Call
pub mod Outcome
pub mod CompileReply
pub mod YieldReply
pub mod Reply
pub mod Unsupported
pub mod Fault
pub mod ErrorRecord
pub mod Run
