-- ===== src/Core/Db/History.antt =====
-- `get_messages`: a page of the history with a peer.
use mathlib.Core.List.{Mem, Perm, mem-cons_self, exists_of_mem-map}
use mathlib.Core.List.Perm
use mathlib.Core.Logic.{∥∥₁_prop, ∥∥₁_elim}
use family_com.Prelude.{
  ℕ, ◌<◌, ◌≤◌, ◌≡◌, refl, ap, ◌∙◌, Bool, true, false, List, [], ◌∷◌, ◌++◌, map, Option, none, some,
  fun_ext, Result, ok, arith, keep, all, all-keep, all-take, all-perm, length, length-append,
  append-nil, length-map, length-take, length-perm, take, drop, take-append-drop, min, ◌==◌, ◌&&◌,
  ltb_ℤ, eq_refl,
}
use family_com.Core.Types.{PeerId, Timestamp, Message}
use family_com.Core.Db.Engine.{MessageRow, Sqlite, Json, IsNewestFirst}
use family_com.Core.Db.{
  Database, DatabaseError, message_of_row, row_of_message, has_message, has_peer, selects, page,
  get_messages, collect, save_message,
}
use family_com.Core.Db.Invariant.{
  IsWellFormed, is_written, row_of_is_written, message_of_row-row_of_message,
}
use family_com.Core.Db.Integrity.{run_update-IsWellFormed, saves}

-- Written rows are all read, and the messages stand for the rows.
collect-is_written :
    (rows : List MessageRow)
    → all is_written rows ≡ true
    → (ms : List Message) × (collect message_of_row rows ≡ ok ms) × (map row_of_message ms ≡ rows)
unfolding collect all
collect-is_written [] h = ([], refl, refl)
collect-is_written (r ∷ rows) h =
    let (ms, e, f) = collect-is_written rows (ground arith) in
    let (m, g, k) = row_of_is_written r (ground arith) in (m ∷ ms, rw (g, e), cc)

-- Which rows a reader of the history with a peer is to get: those with the peer that are strictly older
-- than the bound, if there is one.
abbrev pub is_older : Option Timestamp → Timestamp → Bool
is_older none timestamp = true
is_older (some bound) timestamp = ltb_ℤ timestamp bound

abbrev pub is_wanted : PeerId → Option Timestamp → MessageRow → Bool
is_wanted peer_id before row = row.peer_id == peer_id && is_older before row.timestamp

and_true : (b : Bool) → b ≡ (b && true)
and_true true = refl
and_true false = refl

pub selects-eq :
    (peer_id : PeerId) (before : Option Timestamp)
    → selects peer_id before ≡ is_wanted peer_id before
unfolding selects
selects-eq peer_id none = fun_ext λ row. and_true (row.peer_id == peer_id)
selects-eq peer_id (some bound) = refl

module _ (sql : Sqlite) (json : Json) (db : Database) (w : IsWellFormed json db) where
  get_messages_selected :
      (peer_id : PeerId) (limit : ℕ) (before : Option Timestamp)
      → (ms : List Message) × (rest : List MessageRow) × (get_messages sql none db peer_id limit
            before
          ≡ ok ms)
        × (length ms ≡ min limit (length (keep (selects peer_id before) db.messages)))
        × Perm (map row_of_message ms ++ rest) (keep (selects peer_id before) db.messages)
        × IsNewestFirst (map row_of_message ms ++ rest)
  unfolding get_messages page
  get_messages_selected peer_id limit before =
      let rows : List MessageRow = keep (selects peer_id before) db.messages in
      let sorted : List MessageRow = sql.by_time rows in
      let (ms, e, f) = collect-is_written (take limit sorted) (
        all-take is_written limit sorted (
          all-perm is_written (sql.by_time-perm rows)
          ∙ all-keep is_written (selects peer_id before) db.messages w.written)) in
      let q : map row_of_message ms ++ drop limit sorted ≡ sorted =
        ap (λ xs. xs ++ drop limit sorted) f ∙ take-append-drop limit sorted in
      (
        ms,
        drop limit sorted,
        e,
        omega (
          arith,
          length-map row_of_message ms,
          ap length f,
          length-take limit sorted,
          length-perm (sql.by_time-perm rows),
        ),
        rw q (sql.by_time-perm rows),
        rw q (sql.by_time-IsNewestFirst rows),
      )

  -- In a well-formed database and without a fault the query succeeds. Its page, and some rest, are
  -- together the rows of the table with the peer and with a time strictly before the bound, if there
  -- is one, in an order from the newest to the oldest; the page has `limit` rows, or all of them if
  -- there are fewer.
  pub get_messages_page :
      (peer_id : PeerId) (limit : ℕ) (before : Option Timestamp)
      → (ms : List Message) × (rest : List MessageRow) × (get_messages sql none db peer_id limit
            before
          ≡ ok ms)
        × (length ms ≡ min limit (length (keep (is_wanted peer_id before) db.messages)))
        × Perm (map row_of_message ms ++ rest) (keep (is_wanted peer_id before) db.messages)
        × IsNewestFirst (map row_of_message ms ++ rest)
  get_messages_page peer_id limit before =
      let (ms, rest, got, count, perm, newest) = get_messages_selected peer_id limit before in
      let same : keep (selects peer_id before) db.messages
          ≡ keep (is_wanted peer_id before) db.messages =
        ap (λ p. keep p db.messages) (selects-eq peer_id before) in
      (ms, rest, got, rw same at count, rw same at perm, newest)

-- A message that was saved had a new key and a known peer, and its row is the one that was added.
pub save_message-eq-ok :
    (sql : Sqlite) (db db' : Database) (msg : Message)
    → save_message sql none db msg ≡ (ok tt, db')
    → (has_message db.messages msg.id ≡ false)
      × (has_peer db.peers msg.peer_id ≡ true)
      × (db' ≡ record db { messages = row_of_message msg ∷ db.messages })
unfolding save_message
save_message-eq-ok sql db db' msg h = ground arith

row_of_message_inj : (m n : Message) → row_of_message m ≡ row_of_message n → m ≡ n
row_of_message_inj m n h =
    cc (message_of_row-row_of_message m, message_of_row-row_of_message n, ap message_of_row h)

nil_of_length-append : {A : Type 0} (xs ys : List A) → length (xs ++ ys) ≤ length xs → ys ≡ []
nil_of_length-append xs [] h = refl
nil_of_length-append xs (y ∷ ys) h = absurd (omega (arith, length-append xs (y ∷ ys)))

mem_of_row :
    (ms : List Message) (m : Message) → Mem (row_of_message m) (map row_of_message ms) → Mem m ms
mem_of_row ms m h =
    ∥∥₁_elim (exists_of_mem-map h) ∥∥₁_prop λ (n, k, e). rw (← row_of_message_inj n m e) k

-- With a limit that is not below their number, the page holds every matching message.
get_messages_all :
    (sql : Sqlite) (json : Json) (db : Database)
    → IsWellFormed json db
    → (peer_id : PeerId) (limit : ℕ) (before : Option Timestamp) (m : Message)
    → length (keep (is_wanted peer_id before) db.messages) ≤ limit
    → Mem (row_of_message m) (keep (is_wanted peer_id before) db.messages)
    → (ms : List Message) × (get_messages sql none db peer_id limit before ≡ ok ms) × Mem m ms
get_messages_all sql json db w peer_id limit before m room k =
    let (ms, rest, got, count, perm, _) = get_messages_page sql json db w peer_id limit before in
    let e : rest ≡ [] =
      nil_of_length-append (map row_of_message ms) rest
        (omega (arith, length-map row_of_message ms, length-perm perm)) in
    let perm' : Perm (map row_of_message ms) (keep (is_wanted peer_id before) db.messages) =
      rw (e, append-nil) at perm in
    (ms, got, mem_of_row ms m (Perm.subset (Perm.symm perm') _ k))

module _ (sql : Sqlite) (json : Json) (db db' : Database) (w : IsWellFormed json db) where
  -- A message that was saved without a fault in a well-formed database is in the page that a reader
  -- gets who asks for its peer with a bound in time, if any, that is strictly after that of the
  -- message, and with a limit above the number of older rows of the peer that were stored before.
  pub get_messages-save_message :
      (msg : Message) (limit : ℕ) (before : Option Timestamp)
      → save_message sql none db msg ≡ (ok tt, db')
      → is_older before msg.timestamp ≡ true
      → length (keep (is_wanted msg.peer_id before) db.messages) < limit
      → (ms : List Message) × (get_messages sql none db' msg.peer_id limit before ≡ ok ms)
        × Mem msg ms
  get_messages-save_message msg limit before saved chosen room =
      let (_, _, e) = save_message-eq-ok sql db db' msg saved in
      let w' : IsWellFormed json db' =
        rw (ap (λ (r : Result (Unit {0}) DatabaseError × Database). r.1) saved) at
          (run_update-IsWellFormed sql json none db (saves msg) w) in
      let wanted : is_wanted msg.peer_id before (row_of_message msg) ≡ true =
        unfold row_of_message in ground (arith, chosen, eq_refl msg.peer_id) in
      let rows : keep (is_wanted msg.peer_id before) db'.messages
          ≡ row_of_message msg ∷ keep (is_wanted msg.peer_id before) db.messages =
        rw e (unfold keep in rw wanted refl) in
      get_messages_all sql json db' w' msg.peer_id limit before msg (omega (arith, ap length rows))
        (rw rows mem-cons_self)
