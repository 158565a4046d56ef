-- ===== src/Web.antt =====
-- src/monitor/gui_server.c, the web server of the monitor.
pub mod Escape
pub mod EscapeLaws
pub mod Compare
pub mod Auth
pub mod AuthLaws
pub mod Field
pub mod FieldLaws
pub mod Request
pub mod RequestLaws
pub mod Metrics
pub mod MetricsLaws
pub mod Respond
pub mod Route
pub mod Send
pub mod FileLaws
pub mod SendLaws
pub mod ResponseLaws
pub mod Workers
pub mod Lifecycle
pub mod LifecycleLaws
mod Tests
mod ResponseTests
