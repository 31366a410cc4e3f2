-- ===== src/Daemon/Client.antt =====
-- crates/familycomd/src/client.rs: one connection for each message, which waits for an
-- acknowledgement. `Network` says what happens at an address: whether the connection is made in
-- time, how far the write gets, and what arrives before the second timeout in answer to the bytes that
-- were written.
pub mod Delivery
use family_com.Prelude.{ℕ, String, List, [], ◌∷◌, Option, none, some, Result, ok, err}
use family_com.Core.Protocol.{
  PeerMessage, ack, ProtocolError, MsgPack, WriteFault, Reader, write_message, read_message,
}

pub data ClientError : Type 0 where
  connect_timeout : String → ClientError
  connect : String → String → ClientError
  ack_timeout : String → ClientError
  protocol : ProtocolError → ClientError
  unexpected_response : String → ClientError
  no_address : ClientError

-- The reply to what was written; `none`: nothing that could be read arrived within ACK_TIMEOUT.
pub record Session : Type 0 where
  pub fault : WriteFault
  pub reply : List ℕ → Option Reader

pub data Connection : Type 0 where
  timed_out : Connection
  refused : String → Connection
  connected : Session → Connection

abbrev pub Network : Type 0
Network = String → Connection

-- Step 4: any acknowledgement will do.
unfoldable pub check_response : String → PeerMessage → Result (Unit {0}) ClientError
check_response addr (ack message_id) = ok tt
check_response addr _ = err (unexpected_response addr)

-- Step 3.
unfoldable pub await_ack : MsgPack → String → Option Reader → Result (Unit {0}) ClientError
unfolding check_response
await_ack mp addr none = err (ack_timeout addr)
await_ack mp addr (some r) = elim (read_message mp r).0 [
  | err e ↦ err (protocol e)
  | ok response ↦ check_response addr response
]

unfoldable pub send_message :
    MsgPack → Network → String → PeerMessage → Result (Unit {0}) ClientError
unfolding await_ack
send_message mp net addr message = elim (net addr) [
  | timed_out ↦ err (connect_timeout addr)
  | refused e ↦ err (connect addr e)
  | connected s ↦
      let (result, written) = write_message mp s.fault [] message in
      elim result [ err e ↦ err (protocol e) | ok _ ↦ await_ack mp addr (s.reply written) ]
]

-- The loop of `send_to_any`, with the last error.
unfoldable pub try_addresses :
    MsgPack → Network → PeerMessage → ClientError → List String → Result (Unit {0}) ClientError
try_addresses mp net message last_error [] = err last_error
try_addresses mp net message last_error (addr ∷ rest) = elim (send_message mp net addr message) [
  | ok _ ↦ ok tt
  | err e ↦ try_addresses mp net message e rest
]

unfoldable pub send_to_any :
    MsgPack → Network → List String → PeerMessage → Result (Unit {0}) ClientError
unfolding try_addresses
send_to_any mp net addresses message = try_addresses mp net message no_address addresses
