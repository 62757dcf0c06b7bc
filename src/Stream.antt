-- ===== src/Stream.antt =====
-- The package internal/stream: cursors and the buffered stream.
pub mod Cursor
pub mod Buffered
