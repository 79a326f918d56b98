-- ===== src/Monitor.antt =====
-- internal/monitor: metrics, the sliding window of requests, polling health and the dashboard API.
pub mod Ring
pub mod Metrics
pub mod Health
pub mod Dashboard
mod Tests
