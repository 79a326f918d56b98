-- ===== src/Sticker.antt =====
-- internal/sticker: archives, file lists, conversion, TGS rendering and the worker pool.
pub mod Archive
pub mod Volumes
pub mod Files
pub mod Programs
pub mod Convert
pub mod Guess
pub mod Tgs
pub mod Workers
pub mod Extract
mod Tests
