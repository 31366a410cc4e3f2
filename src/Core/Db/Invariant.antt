-- ===== src/Core/Db/Invariant.antt =====
-- The invariant of the database: distinct keys, no message without its peer, and rows that the
-- readers accept.
use family_com.Prelude.{
  ◌≡◌, refl, String, Bool, true, false, not, ◌&&◌, List, [], ◌∷◌, Result, ok, err, is_ok, arith,
  all, leb, eqb,
}
use family_com.Core.Types.{Message, Direction, from_db_str}
use family_com.Core.Types.Validation.{from_db_str_iff}
use family_com.Core.Db.Engine.{MessageRow, PeerRow, Json}
use family_com.Core.Db.{
  Database, empty, has_peer, has_message, peer_of_row, message_of_row, row_of_message,
}

-- A row that `row_of_message` can have written.
unfoldable pub is_written : MessageRow → Bool
is_written row = is_ok (message_of_row row) && leb row.delivered 1

abbrev pub HasDistinctMessages : List MessageRow → Type 0
HasDistinctMessages [] = Unit {0}
HasDistinctMessages (m ∷ ms) = (has_message ms m.id ≡ false) × HasDistinctMessages ms

abbrev pub HasDistinctPeers : List PeerRow → Type 0
HasDistinctPeers [] = Unit {0}
HasDistinctPeers (p ∷ ps) = (has_peer ps p.id ≡ false) × HasDistinctPeers ps

pub record IsWellFormed (json : Json) (db : Database) : Type 0 where
  pub messages : HasDistinctMessages db.messages
  pub peers : HasDistinctPeers db.peers
  pub parents : all (λ m. has_peer db.peers m.peer_id) db.messages ≡ true
  pub written : all is_written db.messages ≡ true
  pub readable : all (λ p. is_ok (peer_of_row json p)) db.peers ≡ true

pub empty-IsWellFormed : (json : Json) → IsWellFormed json empty
unfolding all
empty-IsWellFormed json = record {
  messages = tt;
  peers = tt;
  parents = refl;
  written = refl;
  readable = refl;
}

-- Reading a row that was written from a message gives the message back.
pub message_of_row-row_of_message : (m : Message) → message_of_row (row_of_message m) ≡ ok m
unfolding message_of_row row_of_message
message_of_row-row_of_message m = rw ((from_db_str_iff _ m.direction).1 refl) (ground arith)

pub is_written-row_of_message : (m : Message) → is_written (row_of_message m) ≡ true
unfolding is_written
is_written-row_of_message m =
    rw (message_of_row-row_of_message m) (unfold row_of_message in ground arith)

row_of_direction :
    (row : MessageRow) (r : Result Direction String)
    → from_db_str row.direction ≡ r
    → is_written row ≡ true
    → (m : Message) × (message_of_row row ≡ ok m) × (row_of_message m ≡ row)
unfolding is_written message_of_row row_of_message
row_of_direction row (ok d) e h = (
  record {
    id = row.id;
    peer_id = row.peer_id;
    direction = d;
    content = row.content;
    timestamp = row.timestamp;
    delivered = not (eqb row.delivered 0);
  },
  rw e refl,
  ground (arith, (from_db_str_iff row.direction d).0 e),
)
row_of_direction row (err x) e h = ground arith

-- A written row is that of the message that is read from it.
pub row_of_is_written :
    (row : MessageRow)
    → is_written row ≡ true
    → (m : Message) × (message_of_row row ≡ ok m) × (row_of_message m ≡ row)
row_of_is_written row = row_of_direction row (from_db_str row.direction) refl
