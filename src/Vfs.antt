-- ===== src/Vfs.antt =====
-- crates/kobako-runtime/src/vfs: the path walk of namei.rs over the dentries of dentry.rs.
pub mod Actions
pub mod Names
pub mod Tree
pub mod Walk
pub mod Lookup
pub mod Counted
pub mod Bounded
pub mod Found
pub mod Confined
pub mod Dentries
pub mod SuperBlock
pub mod Entries
pub mod Rename
pub mod Calls
pub mod Open
mod Runs
mod RenameRuns
mod CallRuns
mod OpenRuns
