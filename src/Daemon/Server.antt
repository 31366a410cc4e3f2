-- ===== src/Daemon/Server.antt =====
-- crates/familycomd/src/server.rs: the handler of one connection. The loop runs on fuel: `none` says
-- that it ran out, which Server/Serving rules out.
pub mod Serving
pub mod Exchange
pub mod Accepting
use family_com.Prelude.{
  ℕ, suc, zero, Bool, true, false, List, [], ◌∷◌, ◌++◌, Option, none, some, Result, ok, err,
}
use family_com.Core.Protocol.{
  PeerMessage, chat, ack, ping, pong, ProtocolError, MsgPack, WriteFault, Reader, write_message,
  read_message,
}

-- A connection: what its peer sends, what each reply meets, the bytes that went out, the messages
-- that were forwarded to the main loop, and how many more its channel takes, if it is to close.
pub record Connection : Type 0 where
  pub reader : Reader
  pub faults : List WriteFault
  pub written : List ℕ
  pub forwarded : List PeerMessage
  pub room : Option ℕ

unfoldable pub next_fault : List WriteFault → WriteFault
next_fault [] = none
next_fault (fault ∷ _) = fault

unfoldable pub later_faults : List WriteFault → List WriteFault
later_faults [] = []
later_faults (_ ∷ faults) = faults

-- `write_message`, of which an error is only logged.
unfoldable pub reply : MsgPack → PeerMessage → Connection → Connection
unfolding next_fault later_faults
reply mp msg c = record c {
  written = (write_message mp (next_fault c.faults) c.written msg).1;
  faults = later_faults c.faults;
}

-- `message_tx.send`: does the loop go on?
unfoldable pub forward : PeerMessage → Connection → Bool × Connection
forward msg c = elim c.room [
  | none ↦ (true, record c { forwarded = c.forwarded ++ msg ∷ [] })
  | some zero ↦ (false, c)
  | some (suc n) ↦ (true, record c { forwarded = c.forwarded ++ msg ∷ []; room = some n })
]

-- The `match` on a message, and what follows it.
unfoldable pub handle_message : MsgPack → PeerMessage → Connection → Bool × Connection
unfolding reply forward
handle_message mp (chat id sender_id sender_name content timestamp) c =
    forward (chat id sender_id sender_name content timestamp) (reply mp (ack id) c)
handle_message mp ping c = (true, reply mp pong c)
handle_message mp pong c = (true, c)
handle_message mp (ack id) c = forward (ack id) c

unfoldable pub handle_connection :
    MsgPack → ℕ → Connection → Option (Result (Unit {0}) ProtocolError × Connection)
unfolding handle_message
handle_connection mp zero c = none
handle_connection mp (suc fuel) c =
    let (received, reader) = read_message mp c.reader in
    elim received [
      | err e ↦ some (err e, record c { reader = reader })
      | ok msg ↦
          let (going, c') = handle_message mp msg (record c { reader = reader }) in
          elim going [ true ↦ handle_connection mp fuel c' | false ↦ some (ok tt, c') ]
    ]
