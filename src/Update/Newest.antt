-- ===== src/Update/Newest.antt =====
-- The release that `latest` finds is the newest of those listed.
pub mod Stable
pub mod Published
pub mod Best
pub mod Pages
