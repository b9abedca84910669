-- ===== src/Wire.antt =====
-- The endpoint codec of the gateway: hive/internal/gateway/wire.go.
pub mod Encode
pub mod Decoder
pub mod Codec
pub mod Complete
