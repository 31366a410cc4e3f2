-- ===== src/Daemon/App/Requests.antt =====
-- crates/familycomd/src/app.rs: the handlers of the requests of clients.
use Prim.Native.String.{◌++◌}
use family_com.Prelude.{
  ℕ, String, false, ◌||◌, List, [], map, Option, none, some, ok, err, get, contains_key, find, ltb,
  if◌then◌else◌, ◌==◌, trim, is_blank, byte_length, is_empty,
}
use family_com.Core.Types.{
  PeerId, Timestamp, PeerInfo, Message, sent, new_message_content, show_content_error,
}
use family_com.Core.Config.{Toml, save}
use family_com.Core.Db.Engine.{Sqlite, Json}
use family_com.Core.Db.{Database, show_error, get_peers, save_message, mark_delivered, get_messages}
use family_com.Core.Protocol.{PeerMessage, chat, MsgPack}
use family_com.Core.Ipc.{ClientRequest, ServerMessage}
use family_com.Daemon.Client.{send_to_any}
use family_com.Daemon.App.State.{DaemonApp, Outside}

unfoldable pub set_online : DaemonApp → PeerInfo → PeerInfo
set_online app peer = record peer { online = contains_key app.online_peers peer.id }

unfoldable pub handle_get_config : DaemonApp → ServerMessage
handle_get_config app = ServerMessage.config app.config.display_name app.config.peer_id

module _ (sql : Sqlite) (json : Json) (mp : MsgPack) (toml : Toml) (o : Outside) where
  unfoldable pub handle_list_peers : DaemonApp → ServerMessage
  unfolding set_online
  handle_list_peers app =
      if o.poisoned
      then ServerMessage.error "internal_error" ("database lock poisoned: " ++ o.lock_error)
      else elim (get_peers sql json o.fetch_peers app.db) [
        | ok peers ↦ ServerMessage.peer_list (map (set_online app) peers)
        | err e ↦ ServerMessage.error "db_error" ("failed to fetch peers: " ++ show_error e)
      ]

  unfoldable pub handle_get_messages : DaemonApp → PeerId → ℕ → Option Timestamp → ServerMessage
  handle_get_messages app peer_id limit before =
      if o.poisoned
      then ServerMessage.error "internal_error" ("database lock poisoned: " ++ o.lock_error)
      else elim (get_messages sql o.fetch_messages app.db peer_id limit before) [
        | ok messages ↦ ServerMessage.messages messages
        | err e ↦ ServerMessage.error "db_error" ("failed to fetch messages: " ++ show_error e)
      ]

  -- The last known addresses of a peer that is not online.
  unfoldable pub stored_addresses : Database → PeerId → List String
  stored_addresses db k = if o.poisoned then [] else elim (get_peers sql json o.fetch_peers db) [
    | ok peers ↦ elim (find (λ p. p.id == k) peers) [ some p ↦ p.addresses | none ↦ [] ]
    | err _ ↦ []
  ]

  unfoldable pub addresses_of : DaemonApp → PeerId → List String
  unfolding stored_addresses
  addresses_of app k = elim (get app.online_peers k) [
    | some info ↦ info.addresses
    | none ↦ stored_addresses app.db k
  ]

  -- The two messages that `handle_send_message` builds.
  unfoldable pub chat_of : DaemonApp → String → PeerMessage
  chat_of app content = chat o.fresh_id app.config.peer_id app.config.display_name content o.now

  unfoldable pub outgoing_message : PeerId → String → Message
  outgoing_message peer_id content = record {
    id = o.fresh_id;
    peer_id = peer_id;
    direction = sent;
    content = content;
    timestamp = o.now;
    delivered = false;
  }

  -- From "Send the message to the peer via TCP".
  unfoldable pub deliver : DaemonApp → List String → PeerMessage → ServerMessage × DaemonApp
  deliver app addresses peer_message = elim (send_to_any mp o.network addresses peer_message) [
    | ok _ ↦ (
      ServerMessage.message_sent o.fresh_id,
      record app {
        db = if o.poisoned then app.db else (mark_delivered o.mark app.db o.fresh_id).1;
      },
    )
    | err _ ↦ (ServerMessage.message_sent o.fresh_id, app)
  ]

  -- From "Save to our local database first", the addresses being known.
  unfoldable pub store_and_deliver :
      DaemonApp → PeerId → String → List String → ServerMessage × DaemonApp
  unfolding deliver chat_of outgoing_message
  store_and_deliver app peer_id content addresses =
      if o.poisoned
      then deliver app addresses (chat_of app content)
      else let (stored, db) = save_message sql o.store app.db (outgoing_message peer_id content) in
        elim stored [
          | ok _ ↦ deliver (record app { db = db }) addresses (chat_of app content)
          | err e ↦ (
            ServerMessage.error "db_error" ("failed to save message: " ++ show_error e),
            record app { db = db },
          )
        ]

  unfoldable pub handle_send_message : DaemonApp → PeerId → String → ServerMessage × DaemonApp
  unfolding store_and_deliver addresses_of
  handle_send_message app peer_id content = elim (new_message_content content) [
    | err e ↦ (ServerMessage.error "invalid_content" (show_content_error e), app)
    | ok _ ↦
        if is_empty (addresses_of app peer_id)
        then (ServerMessage.error "peer_not_found" ("no known addresses for peer " ++ peer_id), app)
        else store_and_deliver app peer_id content (addresses_of app peer_id)
  ]

  unfoldable pub handle_set_display_name : DaemonApp → String → ServerMessage × DaemonApp
  handle_set_display_name app name =
      if is_blank (trim name) || ltb 50 (byte_length name)
      then (ServerMessage.error "invalid_name" "display name must be 1-50 characters", app)
      else let config = record app.config { display_name = trim name } in
        let (saved, disk) = save toml o.disk_faults o.config_dir app.disk config in
        elim saved [
          | ok _ ↦ (ServerMessage.done, record app { config = config; disk = disk })
          | err e ↦ (
            ServerMessage.error "config_error" ("failed to save config: " ++ o.show_config e),
            record app { config = config; disk = disk },
          )
        ]

  -- The response, which is sent to the client if it is still there.
  unfoldable pub handle_ipc_request : DaemonApp → ClientRequest → ServerMessage × DaemonApp
  unfolding handle_list_peers handle_get_messages handle_send_message handle_get_config
      handle_set_display_name
  handle_ipc_request app ClientRequest.list_peers = (handle_list_peers app, app)
  handle_ipc_request app (ClientRequest.get_messages peer_id limit before) =
      (handle_get_messages app peer_id limit before, app)
  handle_ipc_request app (ClientRequest.send_message peer_id content) =
      handle_send_message app peer_id content
  handle_ipc_request app ClientRequest.get_config = (handle_get_config app, app)
  handle_ipc_request app (ClientRequest.set_display_name name) = handle_set_display_name app name
  handle_ipc_request app ClientRequest.subscribe = (ServerMessage.done, app)
