-- ===== src/Daemon/Client/Delivery.antt =====
-- When a message counts as sent.
use family_com.Prelude.{
  ◌≡◌, refl, ap, ◌∙◌, ◌↔◌, String, false, List, [], ◌∷◌, ◌++◌, some, ok, err, arith, any, is_ok,
  Result-cases, inl, inr,
}
use family_com.Core.Types.{MessageId}
use family_com.Core.Protocol.{PeerMessage, ack, MsgPack, Reader, read_message, write_message}
use family_com.Daemon.Client.{
  ClientError, no_address, Session, connected, Network, send_message, await_ack, check_response,
  try_addresses, send_to_any,
}

is_ok-try_addresses :
    (mp : MsgPack) (net : Network) (message : PeerMessage) (e : ClientError)
    (addresses : List String)
    → is_ok (try_addresses mp net message e addresses)
      ≡ any (λ addr. is_ok (send_message mp net addr message)) addresses
unfolding try_addresses any
is_ok-try_addresses mp net message e [] = refl
is_ok-try_addresses mp net message e (addr ∷ rest) =
    elim (Result-cases (send_message mp net addr message)) [
      | inl (_, q) ↦ rw (q, try_addresses) refl
      | inr (e', q) ↦ rw (q, try_addresses) (is_ok-try_addresses mp net message e' rest)
    ]

try_addresses-append :
    (mp : MsgPack) (net : Network) (message : PeerMessage) (e : ClientError)
    (addresses : List String) (addr : String)
    → any (λ a. is_ok (send_message mp net a message)) addresses ≡ false
    → try_addresses mp net message e (addresses ++ addr ∷ []) ≡ send_message mp net addr message
unfolding try_addresses any
try_addresses-append mp net message e [] addr h = ground arith
try_addresses-append mp net message e (a ∷ rest) addr h =
    elim (Result-cases (send_message mp net a message)) [
      | inl (_, q) ↦ ground (arith, q)
      | inr (e', q) ↦
          rw (q, try_addresses)
            (try_addresses-append mp net message e' rest addr (ground (arith, q)))
    ]

pub is_ok-send_to_any :
    (mp : MsgPack) (net : Network) (message : PeerMessage) (addresses : List String)
    → is_ok (send_to_any mp net addresses message)
      ≡ any (λ addr. is_ok (send_message mp net addr message)) addresses
unfolding send_to_any
is_ok-send_to_any mp net message addresses = is_ok-try_addresses mp net message no_address addresses

-- A message reaches a peer exactly if it reaches one of its addresses. They are tried in order: where
-- all those before the last fail, the outcome is that of the last, its error included; without an
-- address there is an error of its own.
pub send_to_any_lem :
    (mp : MsgPack) (net : Network) (message : PeerMessage) (addresses : List String)
    → (is_ok (send_to_any mp net addresses message)
        ≡ any (λ addr. is_ok (send_message mp net addr message)) addresses)
      × (send_to_any mp net [] message ≡ err no_address)
      × ((before : List String) (addr : String)
          → addresses ≡ before ++ addr ∷ []
          → any (λ a. is_ok (send_message mp net a message)) before ≡ false
          → send_to_any mp net addresses message ≡ send_message mp net addr message)
unfolding send_to_any try_addresses
send_to_any_lem mp net message addresses = (
  is_ok-try_addresses mp net message no_address addresses,
  refl,
  λ before addr order h.
      ap (try_addresses mp net message no_address) order
      ∙ try_addresses-append mp net message no_address before addr h,
)

-- Sending to an address succeeds exactly if the connection is made, the message is written whole, and
-- the first message that comes back in time to what was written is an acknowledgement, of whatever message.
pub send_message_iff :
    (mp : MsgPack) (net : Network) (addr : String) (message : PeerMessage)
    → (send_message mp net addr message ≡ ok tt) ↔ (
        (s : Session) × (r : Reader) × (k : MessageId) × (net addr ≡ connected s)
        × ((write_message mp s.fault [] message).0 ≡ ok tt)
        × (s.reply (write_message mp s.fault [] message).1 ≡ some r)
        × ((read_message mp r).0 ≡ ok (ack k)))
unfolding send_message await_ack check_response
send_message_iff mp net addr message = (λ h. ground arith, λ (s, r, k, c, w, p, a). ground arith)
