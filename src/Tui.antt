-- ===== src/Tui.antt =====
-- The terminal client, crates/familycom.
pub mod App
pub mod Event
pub mod IpcClient
pub mod Main
pub mod Ui
