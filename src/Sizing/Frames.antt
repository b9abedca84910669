-- ===== src/Sizing/Frames.antt =====
-- What holds of the frames that a viewer and the session exchange through `clientFrame` and
-- `serverFrame`, bee/internal/herdr/sizing.go, 724-949.
pub mod Bounds
pub mod Reserved
