-- ===== src/Core/Protocol.antt =====
-- crates/familycom-core/src/protocol.rs: length-prefixed MessagePack frames between two daemons.
-- A byte is a number. The reader is the bytes that will arrive and the way in which the stream then
-- ends; a write says how many bytes of it went out before it failed. `MsgPack` stands for rmp_serde.
pub mod Frames
pub mod Reading
use family_com.Prelude.{
  ℕ, ◌+◌, ◌*◌, ◌/◌, ◌%◌, ◌≡◌, String, List, [], ◌∷◌, ◌++◌, Option, none, some, Result, ok, err,
  ◌>>=◌, map_err, length, take, drop, leb, ltb, if◌then◌else◌,
}
use family_com.Core.Types.{PeerId, MessageId, Timestamp}

pub data PeerMessage : Type 0 where
  chat : MessageId → PeerId → String → String → Timestamp → PeerMessage
  ack : MessageId → PeerMessage
  ping : PeerMessage
  pong : PeerMessage

-- `std::io::Error`, as far as its kind is looked at.
pub data IoError : Type 0 where
  unexpected_eof : IoError
  other : String → IoError

pub data ProtocolError : Type 0 where
  io : IoError → ProtocolError
  encode_error : String → ProtocolError
  decode_error : String → ProtocolError
  frame_too_large : ℕ → ProtocolError
  connection_closed : ProtocolError

-- What is written is read back.
pub record MsgPack : Type 0 where
  pub to_vec_named : PeerMessage → Result (List ℕ) String
  pub from_slice : List ℕ → Result PeerMessage String
  pub read_back :
      (m : PeerMessage) (payload : List ℕ) → to_vec_named m ≡ ok payload → from_slice payload ≡ ok m

abbrev pub max_frame_size : ℕ
max_frame_size = 1048576

abbrev pub u32_mod : ℕ
u32_mod = 4294967296

-- `u32::to_be_bytes`.
unfoldable pub to_be_bytes : ℕ → List ℕ
to_be_bytes n = n / 16777216 % 256 ∷ n / 65536 % 256 ∷ n / 256 % 256 ∷ n % 256 ∷ []

-- `u32::from_be_bytes`.
unfoldable pub from_be_bytes : List ℕ → ℕ
from_be_bytes (a ∷ b ∷ c ∷ d ∷ []) = a * 16777216 + b * 65536 + c * 256 + d
from_be_bytes _ = 0

-- The 4 bytes of the length, which `as u32` truncates, and the payload.
unfoldable pub frame : List ℕ → List ℕ
frame payload = to_be_bytes (length payload % u32_mod) ++ payload

unfoldable pub encode : MsgPack → PeerMessage → Result (List ℕ) ProtocolError
unfolding frame
encode mp msg = do payload ← map_err encode_error (mp.to_vec_named msg); ok (frame payload)

unfoldable pub decode : MsgPack → List ℕ → Result PeerMessage ProtocolError
decode mp payload = map_err decode_error (mp.from_slice payload)

-- `None`, or the bytes that went out before the write failed, and the error.
abbrev pub WriteFault : Type 0
WriteFault = Option (ℕ × IoError)

-- The bytes that the writer has sent after `write_all` and `flush`.
unfoldable pub write_message :
    MsgPack → WriteFault → List ℕ → PeerMessage → Result (Unit {0}) ProtocolError × List ℕ
unfolding encode
write_message mp fault out msg = elim (encode mp msg) [
  | err e ↦ (err e, out)
  | ok bytes ↦ elim fault [
    | none ↦ (ok tt, out ++ bytes)
    | some (n, e) ↦ (err (io e), out ++ take n bytes)
  ]
]

-- What arrives on a stream, and the way it ends.
pub record Reader : Type 0 where
  pub bytes : List ℕ
  pub ending : IoError

-- A stream that the other side closes after these bytes.
abbrev pub closing : List ℕ → Reader
closing bytes = record { bytes = bytes; ending = unexpected_eof }

-- `read_exact`.
unfoldable pub read_exact : Reader → ℕ → Result (List ℕ) IoError × Reader
read_exact r n =
    if leb n (length r.bytes)
    then (ok (take n r.bytes), record r { bytes = drop n r.bytes })
    else (err r.ending, record r { bytes = [] })

-- Step 1's treatment of an error: the end of the stream is a closed connection.
unfoldable pub prefix_error : IoError → ProtocolError
prefix_error unexpected_eof = connection_closed
prefix_error (other e) = io (other e)

-- Steps 3 and 4 of `read_message`.
unfoldable pub read_payload : MsgPack → Reader → ℕ → Result PeerMessage ProtocolError × Reader
read_payload mp r size =
    let (payload, r') = read_exact r size in (map_err io payload >>= decode mp, r')

-- `read_message` after `read_exact` of the 4 bytes.
unfoldable pub read_sized :
    MsgPack → Result (List ℕ) IoError × Reader → Result PeerMessage ProtocolError × Reader
unfolding prefix_error
read_sized mp (err e, r) = (err (prefix_error e), r)
read_sized mp (ok len_buf, r) =
    let size = from_be_bytes len_buf in
    if ltb max_frame_size size then (err (frame_too_large size), r) else read_payload mp r size

unfoldable pub read_message : MsgPack → Reader → Result PeerMessage ProtocolError × Reader
unfolding read_sized
read_message mp r = read_sized mp (read_exact r 4)
