-- ===== src/Daemon.antt =====
-- The crate crates/familycomd: the background service.
pub mod Client
pub mod Server
pub mod IpcServer
pub mod Discovery
pub mod Notifications
pub mod App
pub mod Autostart
pub mod Main
pub mod Tray
