-- ===== src/Daemon/App.antt =====
-- crates/familycomd/src/app.rs: the main loop of the daemon. Its state and its handlers are those of
-- the first three children, whose names this module passes on.
pub mod State
pub mod Events
pub mod Requests
pub mod Handlers
pub mod Online
pub mod Incoming
pub mod Sending
pub mod Naming
unfoldable pub use State.*
unfoldable pub use Events.*
unfoldable pub use Requests.*
use Prim.Native.String.{◌++◌}
use family_com.Prelude.{
  ℕ, ◌≡◌, String, Bool, true, false, not, ◌||◌, List, [], ◌∷◌, map, Option, none, some, Result, ok,
  err, HashMap, get, insert, remove, contains_key, any, find, ltb, if◌then◌else◌, ◌==◌, trim,
  is_blank, byte_length, is_empty,
}
use mathlib.Core.Option
use family_com.Core.Types.{
  PeerId, MessageId, Timestamp, PeerInfo, Message, sent, received, new_message_content,
  show_content_error,
}
use family_com.Core.Config.{AppConfig, FilePath, Toml, Disk, DiskFaults, ConfigError, save}
use family_com.Core.Db.Engine.{Sqlite, Json}
use family_com.Core.Db.{
  Database, DatabaseError, Fault, show_error, get_peers, upsert_peer, save_message, mark_delivered,
  get_messages,
}
use family_com.Core.Protocol.{PeerMessage, chat, ack, ping, pong, MsgPack}
use family_com.Core.Ipc.{ClientRequest, ServerMessage}
use family_com.Daemon.Client.{Network, send_to_any}

-- What one turn of `select!` in `run` takes from the channels.
pub data Event : Type 0 where
  discovery : DiscoveryEvent → Event
  incoming : IncomingMessage → Event
  request : ClientRequest → Event
  shutdown : Event

-- `run`, on the order in which the channels are served: the responses, and the daemon at the end.
unfoldable pub run :
    Sqlite
    → Json
    → MsgPack
    → Toml
    → DaemonApp
    → List (Outside × Event)
    → List ServerMessage × DaemonApp
unfolding handle_discovery_event handle_incoming_message handle_ipc_request
run sql json mp toml app [] = ([], app)
run sql json mp toml app ((o, discovery e) ∷ rest) =
    run sql json mp toml (handle_discovery_event sql json mp toml o app e) rest
run sql json mp toml app ((o, incoming m) ∷ rest) =
    run sql json mp toml (handle_incoming_message sql json mp toml o app m) rest
run sql json mp toml app ((o, request r) ∷ rest) =
    let (response, app') = handle_ipc_request sql json mp toml o app r in
    let (responses, last) = run sql json mp toml app' rest in (response ∷ responses, last)
run sql json mp toml app ((o, shutdown) ∷ rest) = ([], app)
