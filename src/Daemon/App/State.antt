-- ===== src/Daemon/App/State.antt =====
-- crates/familycomd/src/app.rs: the state of the daemon, what comes from outside in one step, and the
-- events that other parts send to the main loop.
use family_com.Prelude.{◌≡◌, String, Bool, false, List, [], ◌∷◌, Option, none, HashMap}
use family_com.Core.Types.{PeerId, MessageId, Timestamp, PeerInfo}
use family_com.Core.Config.{AppConfig, FilePath, Disk, DiskFaults, ConfigError}
use family_com.Core.Db.{Database, Fault}
use family_com.Core.Protocol.{PeerMessage}
use family_com.Core.Ipc.{ServerMessage}
use family_com.Daemon.Client.{Network}

-- `DiscoveryEvent`.
pub data DiscoveryEvent : Type 0 where
  peer_found : PeerInfo → DiscoveryEvent
  peer_lost : PeerId → DiscoveryEvent

-- `IncomingMessage`.
pub record IncomingMessage : Type 0 where
  pub message : PeerMessage
  pub from_addr : String

-- The daemon, with the events that it has broadcast (the latest first) and the disk it saves to.
pub record DaemonApp : Type 0 where
  pub db : Database
  pub config : AppConfig
  pub online_peers : HashMap PeerInfo
  pub broadcast : List ServerMessage
  pub disk : Disk

-- `show_config` and `lock_error` are the texts of `ConfigError` and of a poisoned lock.
pub record Outside : Type 0 where
  pub poisoned : Bool
  pub fetch_peers : Fault
  pub fetch_messages : Fault
  pub upsert : Fault
  pub store : Fault
  pub mark : Fault
  pub now : Timestamp
  pub fresh_id : MessageId
  pub network : Network
  pub config_dir : Option FilePath
  pub disk_faults : DiskFaults
  pub show_config : ConfigError → String
  pub lock_error : String

-- A step in which the lock is free and no statement fails.
pub record IsCalm (o : Outside) : Type 0 where
  pub lock : o.poisoned ≡ false
  pub fetch_peers : o.fetch_peers ≡ none
  pub fetch_messages : o.fetch_messages ≡ none
  pub upsert : o.upsert ≡ none
  pub store : o.store ≡ none
  pub mark : o.mark ≡ none

-- `DaemonApp::new`.
unfoldable pub new : Database → AppConfig → Disk → DaemonApp
new db config disk = record {
  db = db;
  config = config;
  online_peers = [];
  broadcast = [];
  disk = disk;
}

unfoldable pub send_event : ServerMessage → DaemonApp → DaemonApp
send_event event app = record app { broadcast = event ∷ app.broadcast }
