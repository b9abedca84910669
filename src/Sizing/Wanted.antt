-- ===== src/Sizing/Wanted.antt =====
-- What a viewer holds after `reconcile`: bee/internal/herdr/sizing.go, 547-692.
pub mod Steps
pub mod Loops
pub mod Kept
pub mod Order
