-- ===== src/Storage.antt =====
-- internal/storage: temporary directories and usage statistics.
pub mod Temp
pub mod Stats
mod Tests
