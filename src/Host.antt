-- ===== src/Host.antt =====
-- crates/kobako/src: the registries of the host SDK and the handler that answers over them.
pub mod Handles
pub mod Names
pub mod Snippets
pub mod Catalog
pub mod Yielder
pub mod Dispatch
mod Runs
