-- ===== src/Daemon/App/Incoming.antt =====
-- What an incoming message does to the database and to the subscribers.
use family_com.Prelude.{
  ◌≡◌, refl, ap, ◌∙◌, String, true, ◌∷◌, arith, if◌then◌else◌, eq_refl, Bool-cases, inl, inr,
}
use family_com.Core.Types.{PeerId, MessageId, Timestamp, PeerInfo, Message, received, as_db_str}
use family_com.Core.Config.{Toml}
use family_com.Core.Db.Engine.{MessageRow, Sqlite, Json}
use family_com.Core.Db.{Database, has_peer, has_message, upsert_peer, save_message, row_of_message}
use family_com.Core.Db.Invariant.{IsWellFormed}
use family_com.Core.Db.Peers.{get_peers_all, any-get_peers, upsert_peer-keys}
use family_com.Core.Protocol.{chat, MsgPack}
use family_com.Core.Ipc.{ServerMessage}
use family_com.Daemon.App.{
  DaemonApp, Outside, IsCalm, peer_exists, store_incoming, sender_info, incoming_message,
  handle_peer_message, handle_incoming_message, send_event,
}

-- A message as it is received from a peer, and its row.
abbrev pub received_message : MessageId → PeerId → String → Timestamp → Message
received_message id sender_id content timestamp = record {
  id = id;
  peer_id = sender_id;
  direction = received;
  content = content;
  timestamp = timestamp;
  delivered = true;
}

abbrev pub received_row : MessageId → PeerId → String → Timestamp → MessageRow
received_row id sender_id content timestamp = record {
  id = id;
  peer_id = sender_id;
  direction = "received";
  content = content;
  timestamp = timestamp;
  delivered = 1;
}

module _ (sql : Sqlite) (json : Json) (mp : MsgPack) (toml : Toml) (o : Outside)
    (calm : IsCalm o) where
  -- The daemon's test whether it knows a sender is exact.
  peer_exists_lem :
      (db : Database) (k : PeerId)
      → IsWellFormed json db
      → peer_exists sql json mp toml o db k ≡ has_peer db.peers k
  peer_exists_lem db k w =
      let (ps, got, _) = get_peers_all sql json db w in
      unfold peer_exists in
      rw calm.fetch_peers (rw (got, peer_exists) (any-get_peers sql json db k ps got))

  store_known :
      (db db' : Database) (m : Message)
      → has_peer db'.peers m.peer_id ≡ true
      → db'.messages ≡ db.messages
      → (save_message sql o.store db' m).1.messages
        ≡ (if has_message db.messages m.id then db.messages else row_of_message m ∷ db.messages)
  unfolding save_message
  store_known db db' m known same = rw (calm.store, save_message) (ground arith)

  save_message-keeps_peer :
      (db : Database) (m : Message)
      → has_peer db.peers m.peer_id ≡ true
      → has_peer (save_message sql o.store db m).1.peers m.peer_id ≡ true
  unfolding save_message
  save_message-keeps_peer db m known = ground arith

  store_incoming-eq :
      (db db' : Database) (sender : PeerInfo) (m : Message)
      → (if peer_exists sql json mp toml o db m.peer_id
          then db
          else (upsert_peer json o.upsert db sender).1)
        ≡ db'
      → store_incoming sql json mp toml o db sender m ≡ (save_message sql o.store db' m).1
  unfolding store_incoming
  store_incoming-eq db db' sender m h = ap (λ d. (save_message sql o.store d m).1) h

  store_incoming_lem :
      (db : Database) (sender : PeerInfo) (m : Message)
      → IsWellFormed json db
      → sender.id ≡ m.peer_id
      → ((store_incoming sql json mp toml o db sender m).messages
          ≡ (if has_message db.messages m.id then db.messages else row_of_message m ∷ db.messages))
        × (has_peer (store_incoming sql json mp toml o db sender m).peers m.peer_id ≡ true)
  store_incoming_lem db sender m w i = elim (Bool-cases (has_peer db.peers m.peer_id)) [
    | inl known ↦
        rw (store_incoming-eq db db sender m (rw (peer_exists_lem db m.peer_id w, known) refl))
          (store_known db db m known refl, save_message-keeps_peer db m known)
    | inr unknown ↦
        let (db', e, same, keys) = upsert_peer-keys json db sender in
        let now : has_peer db'.peers m.peer_id ≡ true =
          keys m.peer_id ∙ rw (i, eq_refl m.peer_id) refl in
        rw
          (store_incoming-eq db db' sender m
            (rw (peer_exists_lem db m.peer_id w, unknown, calm.upsert, e) refl))
          (store_known db db' m now same, save_message-keeps_peer db' m now)
  ]

  -- In a step where nothing fails, a chat message that comes in is stored as received and delivered,
  -- once: under an identifier that is stored already it changes no message. Its sender is a known
  -- peer afterwards, also if it was not before. Subscribers are told of it in either case.
  pub handle_incoming_message-chat :
      (app : DaemonApp) (from_addr : String) (id : MessageId) (sender_id : PeerId)
      (sender_name content : String) (timestamp : Timestamp)
      → IsWellFormed json app.db
      → (app' : DaemonApp) × (handle_incoming_message sql json mp toml o app (record {
        message = chat id sender_id sender_name content timestamp;
        from_addr = from_addr;
      })
          ≡ app')
        × (app'.db.messages ≡ (
            if has_message app.db.messages id
            then app.db.messages
            else received_row id sender_id content timestamp ∷ app.db.messages))
        × (has_peer app'.db.peers sender_id ≡ true)
        × (app'.broadcast
            ≡ ServerMessage.new_message (received_message id sender_id content timestamp)
              ∷ app.broadcast)
  handle_incoming_message-chat app from_addr id sender_id sender_name content timestamp w =
      let (stored, known) =
        store_incoming_lem app.db (sender_info sql json mp toml o sender_id sender_name from_addr)
          (incoming_message id sender_id content timestamp) w
          (unfold sender_info incoming_message in refl) in
      unfold handle_incoming_message handle_peer_message send_event incoming_message row_of_message
        as_db_str in
      (_, refl, rw calm.lock stored, rw calm.lock known, refl)
