-- ===== src/Core/Ipc.antt =====
-- crates/familycom-core/src/ipc.rs: requests, responses and events as JSON lines. `IpcJson` stands
-- for serde_json on one of the two types.
pub mod Lines
use Prim.Native.String.{◌++◌}
use family_com.Prelude.{ℕ, String, List, Option, Result, ok, err, ◌>>=◌, map_err, trim, ◌≡◌}
use family_com.Core.Types.{PeerId, MessageId, Timestamp, PeerInfo, Message}

pub data ClientRequest : Type 0 where
  list_peers : ClientRequest
  get_messages : PeerId → ℕ → Option Timestamp → ClientRequest
  send_message : PeerId → String → ClientRequest
  get_config : ClientRequest
  set_display_name : String → ClientRequest
  subscribe : ClientRequest

pub data ServerMessage : Type 0 where
  done : ServerMessage
  peer_list : List PeerInfo → ServerMessage
  messages : List Message → ServerMessage
  message_sent : MessageId → ServerMessage
  new_message : Message → ServerMessage
  peer_online : PeerInfo → ServerMessage
  peer_offline : PeerId → ServerMessage
  message_delivered : MessageId → ServerMessage
  config : String → PeerId → ServerMessage
  error : String → String → ServerMessage

pub data IpcError : Type 0 where
  json_error : String → IpcError

-- Its `Display`.
unfoldable pub show_ipc_error : IpcError → String
show_ipc_error (json_error e) = "JSON serialization error: " ++ e

-- `serde_json::to_string` and `from_str` on a type. The text has no whitespace at its ends, and is
-- read back.
pub record IpcJson (A : Type 0) : Type 0 where
  pub to_string : A → Result String String
  pub from_str : String → Result A String
  pub trimmed : (a : A) (s : String) → to_string a ≡ ok s → trim s ≡ s
  pub read_back : (a : A) (s : String) → to_string a ≡ ok s → from_str s ≡ ok a

-- `encode_request` and `encode_response`.
unfoldable pub encode_line : {A : Type 0} → IpcJson A → A → Result String IpcError
encode_line codec a = do text ← map_err json_error (codec.to_string a); ok (text ++ "\n")

-- `decode_request` and `decode_response`.
unfoldable pub decode_line : {A : Type 0} → IpcJson A → String → Result A IpcError
decode_line codec line = map_err json_error (codec.from_str (trim line))

unfoldable pub encode_request : IpcJson ClientRequest → ClientRequest → Result String IpcError
unfolding encode_line
encode_request = encode_line

unfoldable pub decode_request : IpcJson ClientRequest → String → Result ClientRequest IpcError
unfolding decode_line
decode_request = decode_line

unfoldable pub encode_response : IpcJson ServerMessage → ServerMessage → Result String IpcError
unfolding encode_line
encode_response = encode_line

unfoldable pub decode_response : IpcJson ServerMessage → String → Result ServerMessage IpcError
unfolding decode_line
decode_response = decode_line
