-- ===== src/Core/Types.antt =====
-- crates/familycom-core/src/types.rs: identifiers, validated names and contents, peers, messages.
-- A newtype over `String` or `i64` is a synonym; a generated identifier and the current time are
-- arguments of the code that uses them.
pub mod Validation
use Prim.Native.String.{◌++◌}
use family_com.Prelude.{
  ℕ, ℤ, String, Bool, List, Result, ok, err, trim, byte_length, is_blank, decimal, ltb,
  if◌then◌else◌, ◌==◌,
}

abbrev pub PeerId : Type 0
PeerId = String

abbrev pub MessageId : Type 0
MessageId = String

-- Milliseconds since the epoch.
abbrev pub Timestamp : Type 0
Timestamp = ℤ

-- `DisplayNameError` and `MessageContentError`, which have the same variants.
pub data DisplayNameError : Type 0 where
  empty_name : DisplayNameError
  name_too_long : ℕ → ℕ → DisplayNameError

pub data MessageContentError : Type 0 where
  empty_content : MessageContentError
  content_too_long : ℕ → ℕ → MessageContentError

abbrev pub max_name_length : ℕ
max_name_length = 50

abbrev pub max_content_length : ℕ
max_content_length = 10000

-- `DisplayName::new`.
unfoldable pub new_display_name : String → Result String DisplayNameError
new_display_name s =
    let name = trim s in
    if is_blank name
    then err empty_name
    else if ltb max_name_length (byte_length name)
    then err (name_too_long max_name_length (byte_length name))
    else ok name

-- `MessageContent::new`.
unfoldable pub new_message_content : String → Result String MessageContentError
new_message_content content =
    if is_blank (trim content)
    then err empty_content
    else if ltb max_content_length (byte_length content)
    then err (content_too_long max_content_length (byte_length content))
    else ok content

-- `MessageContentError::to_string`.
unfoldable pub show_content_error : MessageContentError → String
show_content_error empty_content = "message content cannot be empty"
show_content_error (content_too_long max got) =
    "message content cannot exceed "
    ++ (decimal max ++ (" characters (got " ++ (decimal got ++ ")")))

pub data Direction : Type 0 where
  sent received : Direction

-- `Direction::as_db_str`.
unfoldable pub as_db_str : Direction → String
as_db_str sent = "sent"
as_db_str received = "received"

-- `Direction::from_db_str`.
unfoldable pub from_db_str : String → Result Direction String
from_db_str s =
    if s == "sent"
    then ok sent
    else if s == "received"
    then ok received
    else err ("invalid direction: '" ++ (s ++ "'"))

pub record PeerInfo : Type 0 where
  pub id : PeerId
  pub display_name : String
  pub addresses : List String
  pub last_seen_at : Timestamp
  pub online : Bool

pub record Message : Type 0 where
  pub id : MessageId
  pub peer_id : PeerId
  pub direction : Direction
  pub content : String
  pub timestamp : Timestamp
  pub delivered : Bool
