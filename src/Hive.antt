-- ===== src/Hive.antt =====
-- The Hive server's publications: hive/internal/server/server.go, gateway.go and api.go. SSH is an
-- argument: connections and channels are numbered, and what opening one answers is given.
pub mod Shares
pub mod Streams
pub mod Catalog
pub mod Rules
pub mod Stale
