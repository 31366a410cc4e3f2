-- ===== src/Daemon/App/Sending.antt =====
-- What a request to send a message does: it is stored before it is sent, and marked if it arrives.
use Prim.Native.String.{◌++◌}
use mathlib.Core.Path.{ap₂}
use family_com.Prelude.{
  ◌≡◌, refl, ap, ◌∙◌, ◌⊎◌, inl, inr, String, Bool, true, false, List, [], ◌∷◌, map, none, some, get,
  find, ◌==◌, ok, is_ok, arith, any, if◌then◌else◌, eq_refl, Bool-cases, Result-cases, is_empty,
}
use family_com.Core.Types.{
  PeerId, MessageId, Message, PeerInfo, as_db_str, new_message_content, show_content_error,
}
use family_com.Core.Config.{Toml}
use family_com.Core.Db.Engine.{MessageRow, Sqlite, Json}
use family_com.Core.Db.{
  Database, get_peers, has_peer, has_message, save_message, mark_delivered, set_delivered,
  row_of_message,
}
use family_com.Core.Protocol.{MsgPack, PeerMessage, chat}
use family_com.Core.Ipc.{ServerMessage}
use family_com.Daemon.Client.{send_to_any}
use family_com.Daemon.App.{
  DaemonApp, Outside, IsCalm, addresses_of, stored_addresses, chat_of, outgoing_message, deliver,
  store_and_deliver, handle_send_message,
}

-- An update of an identifier that is not stored changes nothing.
set_delivered-fresh :
    (k : MessageId) (ms : List MessageRow)
    → has_message ms k ≡ false
    → map (set_delivered k) ms ≡ ms
unfolding set_delivered has_message any
set_delivered-fresh k [] h = refl
set_delivered-fresh k (m ∷ ms) h = ground (arith, set_delivered-fresh k ms)

mark_delivered-fresh :
    (db : Database) (m : Message)
    → has_message db.messages m.id ≡ false
    → (mark_delivered none (record db { messages = row_of_message m ∷ db.messages }) m.id).1
      ≡ record db { messages = row_of_message (record m { delivered = true }) ∷ db.messages }
unfolding mark_delivered set_delivered row_of_message
mark_delivered-fresh db m h = rw (eq_refl m.id) (
    ap (λ ms. record db { messages = row_of_message (record m { delivered = true }) ∷ ms })
      (set_delivered-fresh m.id db.messages h))

-- The daemon after a message was stored as sent to a peer, and marked if it was delivered.
abbrev pub with_sent : Outside → DaemonApp → PeerId → String → Bool → DaemonApp
with_sent o app k content delivered = record app {
  db = record app.db {
    messages =
        record {
          id = o.fresh_id;
          peer_id = k;
          direction = "sent";
          content = content;
          timestamp = o.now;
          delivered = if delivered then 1 else 0;
        }
        ∷ app.db.messages;
  };
}

-- The chat message that goes to the peer.
abbrev pub sent_chat : Outside → DaemonApp → String → PeerMessage
sent_chat o app content = chat o.fresh_id app.config.peer_id app.config.display_name content o.now

module _ (sql : Sqlite) (json : Json) (mp : MsgPack) (toml : Toml) (o : Outside) where
  deliver-message_sent :
      (app : DaemonApp) (addresses : List String) (m : PeerMessage)
      → (deliver sql json mp toml o app addresses m).0 ≡ ServerMessage.message_sent o.fresh_id
  unfolding deliver
  deliver-message_sent app addresses m = ground arith

  store_and_deliver-or :
      (app : DaemonApp) (k : PeerId) (content : String) (addresses : List String)
      → ((store_and_deliver sql json mp toml o app k content addresses).0
          ≡ ServerMessage.message_sent o.fresh_id)
        ⊎ ((text : String) × ((store_and_deliver sql json mp toml o app k content addresses).0
              ≡ ServerMessage.error "db_error" text)
            × ((store_and_deliver sql json mp toml o app k content addresses).1 ≡ app))
  unfolding store_and_deliver save_message
  store_and_deliver-or app k content addresses = ground arith

  handle_send_message-eq :
      (app : DaemonApp) (k : PeerId) (content c : String)
      → new_message_content content ≡ ok c
      → is_empty (addresses_of sql json mp toml o app k) ≡ false
      → handle_send_message sql json mp toml o app k content
        ≡ store_and_deliver sql json mp toml o app k content (addresses_of sql json mp toml o app k)
  unfolding handle_send_message store_and_deliver
  handle_send_message-eq app k content c q known = rw (q, handle_send_message, known) refl

  -- Whatever fails, a request to send is answered either with the identifier of the message, or with
  -- an error, and an error leaves the daemon as it was: its code says that the content is invalid,
  -- that no address is known, or that the message could not be stored.
  pub handle_send_message-or :
      (app : DaemonApp) (k : PeerId) (content : String)
      → ((handle_send_message sql json mp toml o app k content).0
          ≡ ServerMessage.message_sent o.fresh_id)
        ⊎ ((code : String) × (text : String) × ((handle_send_message sql json mp toml o app k
                content)
              ≡ (ServerMessage.error code text, app))
            × ((code ≡ "invalid_content") ⊎ ((code ≡ "peer_not_found") ⊎ (code ≡ "db_error"))))
  unfolding handle_send_message
  handle_send_message-or app k content = elim (Result-cases (new_message_content content)) [
    | inr (e, q) ↦
        inr ("invalid_content", show_content_error e, rw (q, handle_send_message) refl, inl refl)
    | inl (c, q) ↦ elim (Bool-cases (is_empty (addresses_of sql json mp toml o app k))) [
      | inl empty ↦ inr (
        "peer_not_found",
        "no known addresses for peer " ++ k,
        rw (q, handle_send_message, empty) refl,
        inr (inl refl),
      )
      | inr known ↦
          elim (store_and_deliver-or app k content (addresses_of sql json mp toml o app k)) [
            | inl sent ↦ inl (rw (handle_send_message-eq app k content c q known) sent)
            | inr (text, answer, same) ↦ inr (
              "db_error",
              text,
              handle_send_message-eq app k content c q known ∙ ap₂ (λ a b. (a, b)) answer same,
              inr (inr refl),
            )
          ]
    ]
  ]

  -- The daemon with the message of a step stored, and marked if it was delivered.
  abbrev with_outgoing : DaemonApp → PeerId → String → Bool → DaemonApp
  with_outgoing app k content delivered = record app {
    db = record app.db {
      messages =
          row_of_message
            (record (outgoing_message sql json mp toml o k content) { delivered = delivered })
          ∷ app.db.messages;
    };
  }

  with_outgoing-eq :
      (app : DaemonApp) (k : PeerId) (content : String) (delivered : Bool)
      → with_outgoing app k content delivered ≡ with_sent o app k content delivered
  unfolding outgoing_message row_of_message as_db_str
  with_outgoing-eq app k content false = refl
  with_outgoing-eq app k content true = refl

  module _ (calm : IsCalm o) where
    deliver-eq :
        (app : DaemonApp) (addresses : List String) (m : PeerMessage)
        → deliver sql json mp toml o app addresses m ≡ (
          ServerMessage.message_sent o.fresh_id,
          if is_ok (send_to_any mp o.network addresses m)
              then record app { db = (mark_delivered none app.db o.fresh_id).1 }
              else app,
        )
    unfolding deliver
    deliver-eq app addresses m = elim (Result-cases (send_to_any mp o.network addresses m)) [
      | inl (_, q) ↦ rw (q, deliver, calm.lock, calm.mark) refl
      | inr (e, q) ↦ rw (q, deliver) refl
    ]

    store_and_deliver-saved :
        (app : DaemonApp) (k : PeerId) (content : String) (addresses : List String)
        → (save_message sql o.store app.db (outgoing_message sql json mp toml o k content)).0
          ≡ ok tt
        → store_and_deliver sql json mp toml o app k content addresses
          ≡ deliver sql json mp toml o
              (record app {
                db =
                    (save_message sql o.store app.db
                      (outgoing_message sql json mp toml o k content)).1;
              })
              addresses
              (chat_of sql json mp toml o app content)
    unfolding store_and_deliver
    store_and_deliver-saved app k content addresses h = ground (arith, calm.lock)

    store_and_deliver-eq :
        (app : DaemonApp) (k : PeerId) (content : String) (addresses : List String)
        → has_peer app.db.peers k ≡ true
        → has_message app.db.messages o.fresh_id ≡ false
        → store_and_deliver sql json mp toml o app k content addresses
          ≡ deliver sql json mp toml o
              (with_outgoing app k content false)
              addresses
              (chat_of sql json mp toml o app content)
    unfolding outgoing_message
    store_and_deliver-eq app k content addresses peer fresh =
        let m : Message = outgoing_message sql json mp toml o k content in
        let saved =
          ap (λ fault. save_message sql fault app.db m) calm.store ∙ saves app.db m peer fresh in
        store_and_deliver-saved app k content addresses (ap (λ r. r.0) saved)
        ∙ ap
            (λ db.
              deliver sql json mp toml o (record app { db = db }) addresses
                (chat_of sql json mp toml o app content))
            (ap (λ r. r.1) saved)
      where
        saves :
            (db : Database) (m : Message)
            → has_peer db.peers m.peer_id ≡ true
            → has_message db.messages m.id ≡ false
            → save_message sql none db m
              ≡ (ok tt, record db { messages = row_of_message m ∷ db.messages })
        saves db m known new = unfold save_message in rw (new, known) refl

    deliver-fresh :
        (app : DaemonApp) (k : PeerId) (content : String) (delivered : Bool)
        → has_message app.db.messages o.fresh_id ≡ false
        → (if delivered
            then record app {
              db = (mark_delivered none (with_outgoing app k content false).db o.fresh_id).1;
            }
            else with_outgoing app k content false)
          ≡ with_outgoing app k content delivered
    deliver-fresh app k content false fresh = refl
    deliver-fresh app k content true fresh =
        unfold outgoing_message in
        ap (λ db. record app { db = db })
          (mark_delivered-fresh app.db (outgoing_message sql json mp toml o k content) fresh)

    handle_send_message-outgoing :
        (app : DaemonApp) (k : PeerId) (content : String)
        → new_message_content content ≡ ok content
        → is_empty (addresses_of sql json mp toml o app k) ≡ false
        → has_peer app.db.peers k ≡ true
        → has_message app.db.messages o.fresh_id ≡ false
        → handle_send_message sql json mp toml o app k content ≡ (
          ServerMessage.message_sent o.fresh_id,
          with_outgoing app k content (
              is_ok (
                send_to_any mp o.network
                  (addresses_of sql json mp toml o app k)
                  (chat_of sql json mp toml o app content))),
        )
    handle_send_message-outgoing app k content valid known peer fresh =
        handle_send_message-eq app k content content valid known
        ∙ store_and_deliver-eq app k content (addresses_of sql json mp toml o app k) peer fresh
        ∙ deliver-eq (with_outgoing app k content false) (addresses_of sql json mp toml o app k)
            (chat_of sql json mp toml o app content)
        ∙ ap (λ a. (ServerMessage.message_sent o.fresh_id, a))
            (deliver-fresh app k content
              (is_ok (
                send_to_any mp o.network (addresses_of sql json mp toml o app k)
                  (chat_of sql json mp toml o app content)))
              fresh)

    pub handle_send_message_stored :
        (app : DaemonApp) (k : PeerId) (content : String)
        → new_message_content content ≡ ok content
        → is_empty (addresses_of sql json mp toml o app k) ≡ false
        → has_peer app.db.peers k ≡ true
        → has_message app.db.messages o.fresh_id ≡ false
        → (handle_send_message sql json mp toml o app k content ≡ (
          ServerMessage.message_sent o.fresh_id,
          with_sent o app k content (
              is_ok (
                send_to_any mp o.network
                  (addresses_of sql json mp toml o app k)
                  (sent_chat o app content))),
        ))
          × ((info : PeerInfo)
              → get app.online_peers k ≡ some info
              → addresses_of sql json mp toml o app k ≡ info.addresses)
          × ((peers : List PeerInfo) (info : PeerInfo)
              → get app.online_peers k ≡ none
              → get_peers sql json none app.db ≡ ok peers
              → find (λ p. p.id == k) peers ≡ some info
              → addresses_of sql json mp toml o app k ≡ info.addresses)
    handle_send_message_stored app k content valid known peer fresh = (
      handle_send_message-outgoing app k content valid known peer fresh
          ∙ (unfold chat_of in
              ap (λ a. (ServerMessage.message_sent o.fresh_id, a))
                (with_outgoing-eq app k content (
                  is_ok (
                    send_to_any mp o.network (addresses_of sql json mp toml o app k)
                      (sent_chat o app content))))),
      (λ info online. unfold addresses_of in ground (arith, online)),
      λ peers info offline got found.
          unfold addresses_of stored_addresses in
          ground (arith, offline, got, found, calm.lock, calm.fetch_peers),
    )
