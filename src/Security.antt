-- ===== src/Security.antt =====
-- crates/kobako-runtime/src: who a call is made for, and what its security modules refuse.
pub mod Files
pub mod OpenFlags
pub mod Creds
pub mod MountPolicies
pub mod Confinement
mod Runs
