-- ===== src/Util.antt =====
-- The package internal/util: its containers.
pub mod RingBuf
pub mod Set
