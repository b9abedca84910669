-- ===== src/Sizing.antt =====
-- The size locks that the viewers of one published session share: bee/internal/herdr/sizing.go.
-- A lock is a handle into a heap, since the session, its viewers and the process-wide set of idle
-- locks hold pointers to it. What the terminal multiplexer, the size helpers and the contexts
-- answer is an argument.
pub mod Locks
pub mod Reclaim
pub mod Panes
pub mod View
pub mod Acquire
pub mod Owned
pub mod Sessions
pub mod Wanted
pub mod Ends
pub mod Client
pub mod Server
pub mod Frames
