-- ===== src/Daemon/Server/Exchange.antt =====
-- The client of one daemon against the connection handler of another.
use family_com.Prelude.{
  ℕ, ◌<◌, ◌≡◌, refl, ap, sym, ◌∙◌, String, List, [], ◌∷◌, ◌++◌, none, some, Result, ok, keep,
  append-nil, arith,
}
use family_com.Core.Types.{PeerId, MessageId, Timestamp}
use family_com.Core.Protocol.{
  PeerMessage, chat, ack, ProtocolError, MsgPack, Reader, closing, write_message, read_message,
  unexpected_eof,
}
use family_com.Core.Protocol.Frames.{Fits, write_messages, write_message-Fits}
use family_com.Daemon.Client.{Session, Network, connected, send_message}
use family_com.Daemon.Client.Delivery.{send_message_iff}
use family_com.Daemon.Server.{Connection, handle_connection}
use family_com.Daemon.Server.Serving.{handle_connection_lem, flawless, replies, is_forwarded}

write_messages-one :
    (mp : MsgPack) (m : PeerMessage)
    → write_messages mp [] (m ∷ []) ≡ (write_message mp none [] m).1
unfolding write_messages
write_messages-one mp m = refl

-- One message that fits its frame is written, and read by the other side.
read_message-one :
    (mp : MsgPack) (m : PeerMessage)
    → Fits mp m
    → ((write_message mp none [] m).0 ≡ ok tt)
      × ((read_message mp (closing (write_messages mp [] (m ∷ [])))).0 ≡ ok m)
read_message-one mp m f =
    let (bytes, write, read) = write_message-Fits mp m f in
    let sent : write_messages mp [] (m ∷ []) ≡ bytes ++ [] =
      write_messages-one mp m
      ∙ ap (λ (r : Result (Unit {0}) ProtocolError × List ℕ). r.1) (write [])
      ∙ sym (append-nil bytes) in
    (
      ap (λ (r : Result (Unit {0}) ProtocolError × List ℕ). r.0) (write []),
      ap (λ bs. (read_message mp (closing bs)).0) sent
          ∙ ap (λ (r : Result PeerMessage ProtocolError × Reader). r.0) (read [] unexpected_eof),
    )

module _ (mp : MsgPack) (id : MessageId) (sender_id : PeerId) (sender_name content : String)
    (timestamp : Timestamp) where
  abbrev message : PeerMessage
  message = chat id sender_id sender_name content timestamp

  served :
      (fuel : ℕ) (r : Result (Unit {0}) ProtocolError) (c : Connection)
      → Fits mp message
      → 1 < fuel
      → handle_connection mp fuel (flawless (closing (write_messages mp [] (message ∷ []))) [] [])
        ≡ some (r, c)
      → (c.written ≡ write_messages mp [] (ack id ∷ [])) × (c.forwarded ≡ message ∷ [])
  served fuel r c f enough h =
      let h' = sym h ∙ handle_connection_lem mp (message ∷ []) fuel (f, tt) enough in
      let same : c
          ≡ flawless (closing []) (write_messages mp [] (replies (message ∷ [])))
              (keep is_forwarded (message ∷ [])) =
        ground (arith, h') in
      rw same (unfold replies keep is_forwarded in (refl, refl))

  -- A peer whose daemon handles the connection without a failure, and answers what it wrote, acknowledges the chat message that
  -- the client writes, so that sending it succeeds, and its main loop gets exactly that message.
  pub send_message-handle_connection :
      (net : Network) (addr : String) (fuel : ℕ) (r : Result (Unit {0}) ProtocolError)
      (c : Connection)
      → Fits mp message
      → Fits mp (ack id)
      → 1 < fuel
      → handle_connection mp fuel (flawless (closing (write_messages mp [] (message ∷ []))) [] [])
        ≡ some (r, c)
      → (s : Session) → net addr ≡ connected s
      → s.fault ≡ none
      → s.reply (write_messages mp [] (message ∷ [])) ≡ some (closing c.written)
      → (send_message mp net addr message ≡ ok tt) × (c.forwarded ≡ message ∷ [])
  send_message-handle_connection net addr fuel r c f g enough handled s at smooth answers =
      let (bytes, forwarded) = served fuel r c f enough handled in
      let reply : Reader = closing c.written in
      (
        (send_message_iff mp net addr message).1 (
          s,
          reply,
          id,
          at,
          rw smooth (read_message-one mp message f).0,
          rw smooth (ap s.reply (sym (write_messages-one mp message)) ∙ answers),
          ap (λ bs. (read_message mp (closing bs)).0) bytes ∙ (read_message-one mp (ack id) g).1,
        ),
        forwarded,
      )
