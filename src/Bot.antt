-- ===== src/Bot.antt =====
-- internal/bot: the routing of updates, the polling client, and the log of Telegram errors.
pub mod Router
pub mod Polling
pub mod Redact
pub mod Run
mod Tests
