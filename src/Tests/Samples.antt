-- ===== src/Tests/Samples.antt =====
-- A peer, a message, a database, and a daemon in a step in which nothing fails.
use family_com.Prelude.{ℕ, pos, refl, true, false, List, [], ◌∷◌, none, some}
use family_com.Core.Types.{PeerInfo, Message, received}
use family_com.Core.Config.{AppConfig, no_faults}
use family_com.Core.Db.{Database, empty, upsert_peer, save_message}
use family_com.Core.Db.Invariant.{IsWellFormed, empty-IsWellFormed}
use family_com.Core.Db.Integrity.{run_update-IsWellFormed, upserts, saves}
use family_com.Core.Protocol.{PeerMessage, chat, closing}
use family_com.Daemon.Client.{Session, connected}
use family_com.Daemon.App.{DaemonApp, Outside, IsCalm}
use family_com.Tests.Engines.{sqlite, json}

abbrev pub alice : PeerInfo
alice = record {
  id = "alice";
  display_name = "Alice";
  addresses = "10.0.0.2:7000" ∷ [];
  last_seen_at = pos 5;
  online = true;
}

abbrev pub hello : Message
hello = record {
  id = "m1";
  peer_id = "alice";
  direction = received;
  content = "hello";
  timestamp = pos 7;
  delivered = true;
}

abbrev pub hello_chat : PeerMessage
hello_chat = chat "m1" "alice" "Alice" "hello" (pos 7)

-- The database that knows Alice, and then her message.
abbrev pub with_alice : Database
with_alice = (upsert_peer json none empty alice).1

abbrev pub with_hello : Database
with_hello = (save_message sqlite none with_alice hello).1

pub with_alice-IsWellFormed : IsWellFormed json with_alice
with_alice-IsWellFormed =
    run_update-IsWellFormed sqlite json none empty (upserts alice) (empty-IsWellFormed json)

pub with_hello-IsWellFormed : IsWellFormed json with_hello
with_hello-IsWellFormed =
    run_update-IsWellFormed sqlite json none with_alice (saves hello) with_alice-IsWellFormed

-- Whoever is connected to acknowledges "m1".
abbrev pub ack_frame : List ℕ
ack_frame = 0 ∷ 0 ∷ 0 ∷ 2 ∷ 130 ∷ 1 ∷ []

abbrev pub session : Session
session = record { fault = none; reply = λ bytes. some (closing ack_frame) }

abbrev pub outside : Outside
outside = record {
  poisoned = false;
  fetch_peers = none;
  fetch_messages = none;
  upsert = none;
  store = none;
  mark = none;
  now = pos 9;
  fresh_id = "m1";
  network = λ addr. connected session;
  config_dir = some "/home/bob/.config";
  disk_faults = no_faults;
  show_config = λ e. "error";
  lock_error = "poisoned";
}

pub outside-IsCalm : IsCalm outside
outside-IsCalm = record {
  lock = refl;
  fetch_peers = refl;
  fetch_messages = refl;
  upsert = refl;
  store = refl;
  mark = refl;
}

abbrev pub config : AppConfig
config = record {
  peer_id = "bob";
  display_name = "Bob";
  tcp_port = 0;
  terminal_command = none;
  network_interface = none;
}

-- Bob's daemon, which has found Alice.
abbrev pub daemon : DaemonApp
daemon = record {
  db = with_alice;
  config = config;
  online_peers = ("alice", alice) ∷ [];
  broadcast = [];
  disk = [];
}
