-- ===== src/Tests/Core.antt =====
-- Names, contents, the database, the frames, the lines and the configuration at concrete inputs.
use mathlib.Core.List.{Mem, Perm}
use family_com.Prelude.{
  ℕ, suc, ◌+◌, ◌≤◌, ◌≡◌, refl, String, false, List, [], ◌∷◌, ◌++◌, map, none, ok, err, arith,
  length, min, keep, any, ltb, leb, if◌then◌else◌, ◌==◌, take, drop,
}
use mathlib.Core.Option
use family_com.Core.Types.{MessageId, PeerInfo, Message}
use family_com.Core.Db.Engine.{MessageRow, PeerRow, IsNewestFirst}
use family_com.Core.Db.{
  Database, get_messages, save_message, row_of_message, mark_delivered, has_message, has_peer,
  upsert_peer, get_peers, peer_of_row,
}
use family_com.Core.Db.Invariant.{IsWellFormed}
use family_com.Core.Db.Integrity.{run_update-IsWellFormed, marks, run_update}
use family_com.Core.Db.History.{is_wanted, get_messages_page, get_messages-save_message}
use family_com.Core.Db.Delivery.{find_row, mark_delivered_lem}
use family_com.Core.Db.Peers.{get_peers-upsert_peer}
use family_com.Core.Protocol.{
  ping, unexpected_eof, frame_too_large, io, max_frame_size, from_be_bytes, decode, read_message,
  closing,
}
use family_com.Core.Protocol.Frames.{
  reading, read_messages-write_messages, write_messages, read_messages, Fits,
}
use family_com.Core.Protocol.Reading.{read_message-prefix, read_message_bound}
use family_com.Tests.Engines.{sqlite, json}
use family_com.Tests.Codecs.{msg_pack, pack}
use family_com.Tests.Samples.{
  alice, hello, hello_chat, with_alice, with_hello, with_alice-IsWellFormed,
  with_hello-IsWellFormed,
}

abbrev wide : String
wide = "ñññññññññññññññññññññññññññ"

run_update-IsWellFormed_example :
    IsWellFormed json (run_update sqlite json none with_hello (marks "m1"))
run_update-IsWellFormed_example =
    run_update-IsWellFormed sqlite json none with_hello (marks "m1") with_hello-IsWellFormed

get_messages_page_example :
    (ms : List Message) × (rest : List MessageRow) × (get_messages sqlite none with_hello "alice" 50
        none
      ≡ ok ms)
    × (length ms ≡ min 50 (length (keep (is_wanted "alice" none) with_hello.messages)))
    × Perm (map row_of_message ms ++ rest) (keep (is_wanted "alice" none) with_hello.messages)
    × IsNewestFirst (map row_of_message ms ++ rest)
get_messages_page_example =
    get_messages_page sqlite json with_hello with_hello-IsWellFormed "alice" 50 none

stored : (save_message sqlite none with_alice hello) ≡ (ok tt, with_hello)
unfolding save_message has_message has_peer any upsert_peer
stored = refl

get_messages-save_message_example :
    (ms : List Message) × (get_messages sqlite none with_hello "alice" 50 none ≡ ok ms)
    × Mem hello ms
unfolding row_of_message upsert_peer keep
get_messages-save_message_example =
    get_messages-save_message sqlite json with_alice with_hello with_alice-IsWellFormed hello 50
      none stored refl (omega arith)

mark_delivered_lem_example :
    (db' : Database) × (mark_delivered none with_hello "m1"
      ≡ (ok (has_message with_hello.messages "m1"), db'))
    × (db'.peers ≡ with_hello.peers)
    × (db'.config ≡ with_hello.config)
    × ((j : MessageId)
        → find_row db'.messages j ≡ (
            if "m1" == j
            then Option.map
                (λ (m : MessageRow). record m { delivered = 1 })
                (find_row with_hello.messages j)
            else find_row with_hello.messages j))
mark_delivered_lem_example = mark_delivered_lem with_hello "m1"

get_peers-upsert_peer_example :
    (db' : Database) × (ps : List PeerInfo) × (upsert_peer json none with_alice alice
      ≡ (ok tt, db'))
    × (get_peers sqlite json none db' ≡ ok ps)
    × Mem (record alice { online = false }) ps
    × ((row : PeerRow) (q : PeerInfo)
        → Mem row with_alice.peers
        → peer_of_row json row ≡ ok q
        → (q.id == alice.id) ≡ false
        → Mem q ps)
    × (length ps ≡ (
        if has_peer with_alice.peers alice.id
        then length with_alice.peers
        else suc (length with_alice.peers)))
get_peers-upsert_peer_example =
    get_peers-upsert_peer sqlite json with_alice with_alice-IsWellFormed alice

abbrev hello_payload : List ℕ
hello_payload = 129 ∷ 1 ∷ 2 ∷ 3 ∷ 4 ∷ 7 ∷ []

hello_packed : pack hello_chat ≡ ok hello_payload
unfolding pack
hello_packed = refl

hello-Fits : Fits msg_pack hello_chat
hello-Fits = (hello_payload, hello_packed, omega arith)

ping-Fits : Fits msg_pack ping
unfolding pack
ping-Fits = (131 ∷ [], refl, omega arith)

read_messages-write_messages_example :
    read_messages msg_pack 2 (closing (write_messages msg_pack [] (hello_chat ∷ ping ∷ [])))
    ≡ (ok hello_chat ∷ ok ping ∷ [], closing [])
read_messages-write_messages_example =
    read_messages-write_messages msg_pack (hello_chat ∷ ping ∷ []) (hello-Fits, (ping-Fits, tt))

abbrev large_head : List ℕ
large_head = 0 ∷ 16 ∷ 0 ∷ 1 ∷ []

abbrev large_body : List ℕ
large_body = 7 ∷ []

read_message-prefix_example :
    read_message msg_pack (reading (large_head ++ large_body) unexpected_eof) ≡ (
      if ltb max_frame_size (from_be_bytes large_head)
      then (err (frame_too_large (from_be_bytes large_head)), reading large_body unexpected_eof)
      else if leb (from_be_bytes large_head) (length large_body)
      then (
        decode msg_pack (take (from_be_bytes large_head) large_body),
        reading (drop (from_be_bytes large_head) large_body) unexpected_eof,
      )
      else (err (io unexpected_eof), reading [] unexpected_eof))
read_message-prefix_example = read_message-prefix msg_pack large_head large_body unexpected_eof refl

read_message_bound_example :
    3 ≤ 4 + max_frame_size + length (read_message msg_pack (closing (1 ∷ 2 ∷ 3 ∷ []))).1.bytes
read_message_bound_example = read_message_bound msg_pack (closing (1 ∷ 2 ∷ 3 ∷ []))
