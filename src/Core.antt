-- ===== src/Core.antt =====
-- The crate crates/familycom-core: the types, the wire and IPC protocols, the database and the
-- configuration, which the daemon and the terminal client share.
pub mod Types
pub mod Db
pub mod Protocol
pub mod Ipc
pub mod Config
