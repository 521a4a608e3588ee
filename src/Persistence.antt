-- ===== src/Persistence.antt =====
-- Persistence of matrices (pkg/persistence).
pub mod Words
pub mod Io
pub mod Codec
pub mod Wal
pub mod Store
