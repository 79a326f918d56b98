-- ===== src/Command.antt =====
-- internal/command: the task slots and the links in messages.
pub mod Tasks
pub mod Links
pub mod Fetch
pub mod Messages
pub mod Services
pub mod Sets
pub mod Download
pub mod Info
pub mod Replies
mod Tests
