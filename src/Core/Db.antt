-- ===== src/Core/Db.antt =====
-- crates/familycom-core/src/db.rs: the three tables and the statements that the typed methods run.
-- A statement is read as SQL says. What SQL leaves open (the order of equal keys) and what is the
-- engine's own (its error texts, and whether a statement fails on I/O) are parameters: `Sqlite`,
-- and an argument `fault` of each method. `Json` stands for serde_json on lists of addresses.
pub mod Engine
pub mod Collect
pub mod Invariant
pub mod Integrity
pub mod History
pub mod Delivery
pub mod Peers
use Prim.Native.String.{◌++◌}
use family_com.Prelude.{
  ℕ, String, Bool, true, false, not, ◌&&◌, List, [], ◌∷◌, map, Option, none, some, Result, ok, err,
  ◌>>=◌, map_err, HashMap, get, insert, length, keep, any, take, ltb, ltb_ℤ, eqb, if◌then◌else◌,
  ◌==◌,
}
use family_com.Core.Types.{
  PeerId, MessageId, Timestamp, PeerInfo, Message, Direction, as_db_str, from_db_str,
}
use Engine.{MessageRow, PeerRow, Sqlite, Json}

pub data DatabaseError : Type 0 where
  sqlite : String → DatabaseError
  invalid_data : String → DatabaseError

-- `DatabaseError::to_string`.
unfoldable pub show_error : DatabaseError → String
show_error (sqlite e) = "SQLite error: " ++ e
show_error (invalid_data e) = "invalid data in database: " ++ e

-- The tables `config`, `peers` and `messages`, in the order of insertion.
pub record Database : Type 0 where
  pub config : HashMap String
  pub peers : List PeerRow
  pub messages : List MessageRow

-- A new database after `migrate`.
abbrev pub empty : Database
empty = record { config = []; peers = []; messages = [] }

-- `None`, or the error of the engine for this statement.
abbrev pub Fault : Type 0
Fault = Option String

-- A query that may fail.
abbrev pub query {ℓ} : {A : Type ℓ} → Fault → A → Result A DatabaseError
query none a = ok a
query (some e) a = err (sqlite e)

-- An update that may fail, and then changes nothing.
abbrev pub update {ℓ} :
    {A : Type ℓ} → Fault → Database → A → Database → Result A DatabaseError × Database
update none db a db' = (ok a, db')
update (some e) db a db' = (err (sqlite e), db)

-- `SELECT value FROM config WHERE key = ?1`.
unfoldable pub get_config : Fault → Database → String → Result (Option String) DatabaseError
get_config fault db key = query fault (get db.config key)

-- `INSERT OR REPLACE INTO config`.
unfoldable pub set_config :
    Fault → Database → String → String → Result (Unit {0}) DatabaseError × Database
set_config fault db key value =
    update fault db tt (record db { config = insert db.config key value })

-- Does a row of `peers` have this primary key?
unfoldable pub has_peer : List PeerRow → PeerId → Bool
has_peer peers k = any (λ p. p.id == k) peers

unfoldable pub has_message : List MessageRow → MessageId → Bool
has_message messages k = any (λ m. m.id == k) messages

-- The row of a peer in place of any with its key: REPLACE deletes, then inserts.
unfoldable pub replace_peer : PeerRow → List PeerRow → List PeerRow
replace_peer row peers = row ∷ keep (λ p. not (p.id == row.id)) peers

unfoldable pub upsert_peer :
    Json → Fault → Database → PeerInfo → Result (Unit {0}) DatabaseError × Database
unfolding replace_peer
upsert_peer json fault db peer = elim (json.to_string peer.addresses) [
  | err e ↦ (err (invalid_data ("failed to serialize addresses: " ++ e)), db)
  | ok addresses ↦ update fault db tt (record db {
    peers =
        replace_peer
          (record {
            id = peer.id;
            display_name = peer.display_name;
            last_seen_at = peer.last_seen_at;
            addresses = addresses;
          })
          db.peers;
  })
]

-- The row closure of `get_peers`.
unfoldable pub peer_of_row : Json → PeerRow → Result PeerInfo DatabaseError
peer_of_row json row = do
  addresses ←
      map_err (λ e. invalid_data ("bad addresses JSON: " ++ e)) (json.from_str row.addresses)
  ok (record {
    id = row.id;
    display_name = row.display_name;
    addresses = addresses;
    last_seen_at = row.last_seen_at;
    online = false;
  })

-- `collect::<Result<Vec<_>, _>>()` of a mapped iterator: the first error ends it.
unfoldable pub collect {ℓ κ μ} :
    {A : Type ℓ} {B : Type κ} {E : Type μ} → (A → Result B E) → List A → Result (List B) E
collect f [] = ok []
collect f (x ∷ xs) = do y ← f x; ys ← collect f xs; ok (y ∷ ys)

unfoldable pub get_peers : Sqlite → Json → Fault → Database → Result (List PeerInfo) DatabaseError
get_peers sql json fault db = do
  rows ← query fault (sql.by_name db.peers)
  collect (peer_of_row json) rows

abbrev pub delivered_column : Bool → ℕ
delivered_column false = 0
delivered_column true = 1

-- The parameters of the INSERT of `save_message`.
unfoldable pub row_of_message : Message → MessageRow
row_of_message msg = record {
  id = msg.id;
  peer_id = msg.peer_id;
  direction = as_db_str msg.direction;
  content = msg.content;
  timestamp = msg.timestamp;
  delivered = delivered_column msg.delivered;
}

-- The primary key is checked as the row goes in, the foreign key at the end of the statement. The
-- row inserted last stands first in the table.
unfoldable pub save_message :
    Sqlite → Fault → Database → Message → Result (Unit {0}) DatabaseError × Database
unfolding has_message has_peer row_of_message
save_message sql (some e) db msg = (err (sqlite e), db)
save_message sql none db msg =
    if has_message db.messages msg.id
    then (err (sqlite sql.unique_failed), db)
    else if has_peer db.peers msg.peer_id
    then (ok tt, record db { messages = row_of_message msg ∷ db.messages })
    else (err (sqlite sql.foreign_key_failed), db)

-- The mapping of a row in `collect_messages`.
unfoldable pub message_of_row : MessageRow → Result Message DatabaseError
message_of_row row = do
  direction ← map_err invalid_data (from_db_str row.direction)
  ok (record {
    id = row.id;
    peer_id = row.peer_id;
    direction = direction;
    content = row.content;
    timestamp = row.timestamp;
    delivered = not (eqb row.delivered 0);
  })

-- The WHERE clause of the two queries of `get_messages`.
unfoldable pub selects : PeerId → Option Timestamp → MessageRow → Bool
selects peer_id none row = row.peer_id == peer_id
selects peer_id (some before_ts) row = row.peer_id == peer_id && ltb_ℤ row.timestamp before_ts

-- WHERE, ORDER BY timestamp DESC, LIMIT.
unfoldable pub page : Sqlite → Database → PeerId → ℕ → Option Timestamp → List MessageRow
page sql db peer_id limit before =
    take limit (sql.by_time (keep (selects peer_id before) db.messages))

unfoldable pub get_messages :
    Sqlite → Fault → Database → PeerId → ℕ → Option Timestamp → Result (List Message) DatabaseError
get_messages sql fault db peer_id limit before = do
  rows ← query fault (page sql db peer_id limit before)
  collect message_of_row rows

-- `UPDATE messages SET delivered = 1 WHERE id = ?1`, on a row.
unfoldable pub set_delivered : MessageId → MessageRow → MessageRow
set_delivered k row = if row.id == k then record row { delivered = 1 } else row

unfoldable pub mark_delivered : Fault → Database → MessageId → Result Bool DatabaseError × Database
mark_delivered fault db message_id =
    let rows_affected = length (keep (λ m. m.id == message_id) db.messages) in
    update fault db (ltb 0 rows_affected)
      (record db { messages = map (set_delivered message_id) db.messages })

unfoldable pub unread_count : Fault → Database → PeerId → Result ℕ DatabaseError
unread_count fault db peer_id = query fault (
    length (
      keep (λ m. m.peer_id == peer_id && (m.direction == "received" && eqb m.delivered 0))
        db.messages))
