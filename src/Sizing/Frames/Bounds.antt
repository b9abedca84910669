-- ===== src/Sizing/Frames/Bounds.antt =====
-- What a viewer waits for is bounded.
pub mod Waits
pub mod Requests
pub mod Replies
