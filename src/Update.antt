-- ===== src/Update.antt =====
-- Installing releases: internal/update/update.go. The network, the archive readers, the hash and the
-- file operations are arguments.
pub mod Version
pub mod Order
pub mod Catalog
pub mod Newest
pub mod Archive
pub mod Install
pub mod Checked
pub mod Safe
