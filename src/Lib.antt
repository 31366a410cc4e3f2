-- ===== src/Lib.antt =====
-- FamilyCom: a messenger for a local network. A daemon on each machine finds its peers, exchanges
-- messages with them over TCP, and stores them in SQLite; a terminal client talks to its daemon
-- over a socket.
--
-- Prelude holds the shared helpers: Boolean tests and lists on the native numbers, results, texts
-- by their bytes, maps with text keys.
--
-- Core is crates/familycom-core. Core/Types is types.rs: identifiers are texts, a timestamp is an
-- integer, DisplayName::new and MessageContent::new are new_display_name and new_message_content.
-- Core/Db is db.rs: a Database is its three tables, each method is the function of its name, and a
-- statement may fail, which changes nothing. Core/Protocol is protocol.rs: the stream is the bytes
-- that arrive and the way it ends. Core/Ipc is ipc.rs and Core/Config is config.rs.
--
-- Daemon is crates/familycomd. Daemon/Client is client.rs: the network says what happens at each
-- address, and what it answers to the bytes written. Daemon/Server is the handler of a connection
-- in server.rs, and Daemon/Server/Accepting the accept loop; Daemon/Server/Exchange sets the
-- client against it. Daemon/IpcServer is the handler of a terminal client in ipc_server.rs: a Turn
-- is the branch of select! that is ready, and handle_ipc_client goes over turns up to its return;
-- Daemon/IpcServer/Expected says what the turns alone amount to, and Daemon/IpcServer/Socket has
-- the socket file and the accept loop. Daemon/App is app.rs: its children State, Events and
-- Requests have the record DaemonApp and the handlers on it, which also collects the events
-- broadcast and the disk, and run, which takes the order in which select! serves the channels as a
-- list. An Outside says for one step whether the lock is poisoned, which statements fail, the
-- time, the fresh identifier, the network and the file system. The handlers use Core/Db,
-- Core/Config and Daemon/Client; the events of Daemon/App are those that discovery
-- (DiscoveryEvent) and Daemon/Server forward.
--
-- Daemon/Discovery is discovery.rs: browse_loop works on a list of the mDNS library's reports,
-- each with the time at which it is handled; Daemon/Discovery/Registration has new and shutdown
-- over the calls of that library; Daemon/Discovery/Browsing connects its events to run.
--
-- Daemon/Notifications is notifications.rs: an instant is a number of nanoseconds;
-- Daemon/Notifications/Due says apart from the code which calls show a notification. Daemon/Main
-- is main.rs: Machine says what the system calls of a start answer, start is main up to the loop,
-- and what it starts has the DaemonApp that Daemon/App goes on with; the disk is that of the
-- configuration, and neither the database's file nor the socket's is on it; Daemon/Main/Notifier
-- is the task that reads the events for notifications. Daemon/Autostart is autostart.rs.
-- Daemon/Tray is tray.rs without GTK.
--
-- Tui is crates/familycom. Tui/App is app.rs: its children State, Input and Replies have the
-- record TuiApp, the input line and handle_server_message, itself handle_action; Tui/App/Paging
-- sets it against the daemon. An offset into a text counts bytes, and none stands for a panic.
-- Tui/Event is event.rs, Tui/IpcClient is ipc_client.rs, and Tui/Main is main.rs: start and
-- run_loop, over the branches of select! in any order. Tui/Ui is the folder ui: each panel is what
-- its widgets are given, and Tui/Ui/Render is a frame.
--
-- Parameters: Sqlite (some order that ORDER BY allows, the error texts), Json, MsgPack, Toml and
-- IpcJson (what is written is read back). Tests/Engines, Tests/Codecs and Tests/Lines have
-- instances. Mdns and Netdev (which calls fail, which interfaces there are), Machine and Spawn
-- (what the system answers) have theirs in Tests/Discovery and Tests/Start.
--
-- Bounds: a frame has at most 1048576 bytes, its length is taken modulo 2 ^ 32 as the cast does,
-- the scroll offset saturates at 65535, and the place of the cursor is modulo 2 ^ 16, as in a
-- release build. Every stream ends, in one of the ways of IoError: server.rs has no timeout for a
-- read, so an idle connection that its peer leaves open keeps its handler, and what is said of the
-- end of a handler is said of streams that end. Fuel: handle_connection runs on fuel, one for each
-- message; as every read takes at least four bytes, more fuel than bytes is enough. A read of a
-- connection in parts and the order of tasks are seen only as the bytes and the events that
-- result.
--
-- Not modelled: sockets themselves, the set-up of the terminal, process control, the icon and menu
-- of the tray, logging, ratatui's widgets, and the formatting of local times. The receivers of the
-- broadcast channel are outside DaemonApp; that one lags is seen in Daemon/IpcServer and
-- Daemon/Main/Notifier.
pub mod Prelude
pub mod Core
pub mod Daemon
pub mod Tui
pub mod System
pub mod Tests
