-- ===== src/Tests.antt =====
-- The theorems at concrete inputs, on small instances of the libraries that the program calls.
pub mod Engines
pub mod Codecs
pub mod Lines
pub mod Samples
pub mod Core
pub mod Daemon
pub mod IpcServer
pub mod Discovery
pub mod Notifications
pub mod Tui
pub mod Paging
pub mod Client
pub mod System
pub mod Start
