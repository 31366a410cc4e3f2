-- ===== src/System/Delivery.antt =====
-- A message on its way from one daemon to another: handle_send_message in
-- crates/familycomd/src/app.rs, client.rs, the connection handler of server.rs on the other machine,
-- and handle_incoming_message there.
use family_com.Prelude.{
  ℕ, ◌<◌, ◌≡◌, refl, ap, ◌∙◌, String, true, false, List, [], ◌∷◌, map, none, some, Result, ok,
  is_ok, Bool, ◌++◌, any, arith, is_empty, if◌then◌else◌,
}
use family_com.Core.Types.{PeerId, new_message_content}
use family_com.Core.Config.{Toml}
use family_com.Core.Db.Engine.{Sqlite, Json}
use family_com.Core.Db.{has_peer, has_message}
use family_com.Core.Db.Invariant.{IsWellFormed}
use family_com.Core.Protocol.{PeerMessage, ack, ProtocolError, MsgPack, closing}
use family_com.Core.Protocol.Frames.{Fits, write_messages}
use family_com.Core.Ipc.{ServerMessage}
use family_com.Daemon.Client.{Session, connected, send_message, send_to_any}
use family_com.Daemon.Client.Delivery.{is_ok-send_to_any}
use family_com.Daemon.Server.{Connection, handle_connection}
use family_com.Daemon.Server.Serving.{flawless}
use family_com.Daemon.Server.Exchange.{send_message-handle_connection}
use family_com.Daemon.App.{
  DaemonApp, Outside, IsCalm, Event, incoming, addresses_of, handle_send_message, run,
}
use family_com.Daemon.App.Incoming.{handle_incoming_message-chat, received_message, received_row}
use family_com.Daemon.App.Sending.{handle_send_message_stored, with_sent, sent_chat}

-- What the server forwards to the main loop for the messages of a connection.
abbrev pub arrivals : Outside → String → List PeerMessage → List (Outside × Event)
arrivals o from_addr = map (λ m. (o, incoming (record { message = m; from_addr = from_addr })))

any-middle :
    (p : String → Bool) (xs ys : List String) (x : String)
    → p x ≡ true
    → any p (xs ++ x ∷ ys) ≡ true
unfolding any
any-middle p [] ys x h = rw h refl
any-middle p (z ∷ xs) ys x h = ground (arith, any-middle p xs ys x h)

is_empty-middle : (xs ys : List String) (x : String) → is_empty (xs ++ x ∷ ys) ≡ false
is_empty-middle [] ys x = refl
is_empty-middle (z ∷ xs) ys x = refl

module _ (sql : Sqlite) (json : Json) (mp : MsgPack) (toml : Toml) (here there : Outside)
    (here_calm : IsCalm here) (there_calm : IsCalm there) where
  -- Two daemons in steps in which nothing fails. The first sends a valid content to a stored peer at
  -- one of whose addresses the second handles the connection, which answers what the second wrote,
  -- and messages fit their frames. Then the first stores the message as sent and delivered; the
  -- second stores the same identifier, content and time as received from the first, and as delivered,
  -- once, has the first among its peers, and tells its subscribers of the message.
  pub handle_send_message-run :
      (a b : DaemonApp) (k : PeerId) (content addr from_addr : String) (before rest : List String)
      (fuel : ℕ) (r : Result (Unit {0}) ProtocolError) (c : Connection)
      → IsWellFormed json b.db
      → new_message_content content ≡ ok content
      → addresses_of sql json mp toml here a k ≡ before ++ addr ∷ rest
      → has_peer a.db.peers k ≡ true
      → has_message a.db.messages here.fresh_id ≡ false
      → Fits mp (sent_chat here a content)
      → Fits mp (ack here.fresh_id)
      → 1 < fuel
      → handle_connection mp fuel
          (flawless (closing (write_messages mp [] (sent_chat here a content ∷ []))) [] [])
        ≡ some (r, c)
      → (s : Session) → here.network addr ≡ connected s
      → s.fault ≡ none
      → s.reply (write_messages mp [] (sent_chat here a content ∷ [])) ≡ some (closing c.written)
      → (handle_send_message sql json mp toml here a k content
          ≡ (ServerMessage.message_sent here.fresh_id, with_sent here a k content true))
        × (b' : DaemonApp) × (run sql json mp toml b (arrivals there from_addr c.forwarded)
            ≡ ([], b'))
        × (b'.db.messages ≡ (
            if has_message b.db.messages here.fresh_id
            then b.db.messages
            else received_row here.fresh_id a.config.peer_id content here.now ∷ b.db.messages))
        × (has_peer b'.db.peers a.config.peer_id ≡ true)
        × (b'.broadcast
            ≡ ServerMessage.new_message
                (received_message here.fresh_id a.config.peer_id content here.now)
              ∷ b.broadcast)
  unfolding run
  handle_send_message-run a b k content addr from_addr before rest fuel r c w valid first known
        fresh f g enough handled s at smooth answers =
      let chat_message : PeerMessage = sent_chat here a content in
      let (acked, forwarded) =
        send_message-handle_connection mp here.fresh_id a.config.peer_id a.config.display_name
          content here.now here.network addr fuel r c f g enough handled s at smooth answers in
      let reached : is_ok (send_to_any mp here.network (before ++ addr ∷ rest) chat_message)
          ≡ true =
        is_ok-send_to_any mp here.network chat_message (before ++ addr ∷ rest)
        ∙ any-middle (λ d. is_ok (send_message mp here.network d chat_message)) before rest addr
            (ap is_ok acked) in
      let (b', handles, stored, known_there, told) =
        handle_incoming_message-chat sql json mp toml there there_calm b from_addr here.fresh_id
          a.config.peer_id a.config.display_name content here.now w in
      let sent : Bool → ServerMessage × DaemonApp =
        λ d. (ServerMessage.message_sent here.fresh_id, with_sent here a k content d) in
      (
        (handle_send_message_stored sql json mp toml here here_calm a k content valid
              (ap is_empty first ∙ is_empty-middle before rest addr) known fresh).0
            ∙ ap sent
                (ap (λ ds. is_ok (send_to_any mp here.network ds chat_message)) first ∙ reached),
        b',
        ap (λ ms. run sql json mp toml b (arrivals there from_addr ms)) forwarded
            ∙ ap (λ d. ([], d)) handles,
        stored,
        known_there,
        told,
      )
