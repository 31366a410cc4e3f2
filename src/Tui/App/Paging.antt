-- ===== src/Tui/App/Paging.antt =====
-- A page of the history, from the daemon's database to the view of the client.
use mathlib.Core.List.{Perm}
use mathlib.Core.List
use family_com.Prelude.{
  ℕ, ◌≡◌, refl, ap, sym, ◌∙◌, true, List, [], ◌∷◌, ◌++◌, reverse, map, Option, none, ok, arith, All,
  All-append, ◌≤ℤ◌, all, all-perm, all-keep_self, eq_iff, eq_refl,
}
use family_com.Core.Types.{PeerId, Timestamp, Message}
use family_com.Core.Config.{Toml}
use family_com.Core.Db.Engine.{MessageRow, Sqlite, Json, IsNewestFirst}
use family_com.Core.Db.{row_of_message, get_messages}
use family_com.Core.Db.Invariant.{IsWellFormed}
use family_com.Core.Db.History.{get_messages_page, is_wanted}
use family_com.Core.Protocol.{MsgPack}
use family_com.Core.Ipc.{ServerMessage}
use family_com.Daemon.App.{DaemonApp, Outside, IsCalm, handle_get_messages}
use family_com.Tui.App.{TuiApp, handle_server_message}
use family_com.Tui.App.History.{history, handle_server_message-messages}

-- Every message is at most as new as those after it.
abbrev pub IsOldestFirst : List Message → Type 0
IsOldestFirst [] = Unit
IsOldestFirst (m ∷ ms) = All (λ (n : Message). m.timestamp ≤ℤ n.timestamp) ms × IsOldestFirst ms

IsOldestFirst-append :
    (ms : List Message) (m : Message)
    → IsOldestFirst ms
    → All (λ (n : Message). n.timestamp ≤ℤ m.timestamp) ms
    → IsOldestFirst (ms ++ m ∷ [])
IsOldestFirst-append [] m s a = (tt, tt)
IsOldestFirst-append (n ∷ ms) m s a = (
  All-append (λ (k : Message). n.timestamp ≤ℤ k.timestamp) ms (m ∷ []) s.0 (a.0, tt),
  IsOldestFirst-append ms m s.1 a.1,
)

All-reverse : (P : Message → Type 0) (ms : List Message) → All P ms → All P (reverse ms)
All-reverse P [] a = tt
All-reverse P (m ∷ ms) a =
    rw (List.reverse-cons m ms)
      (All-append P (reverse ms) (m ∷ []) (All-reverse P ms a.1) (a.0, tt))

rows_older :
    (t : Timestamp) (ms : List Message) (rest : List MessageRow)
    → All (λ (r : MessageRow). r.timestamp ≤ℤ t) (map row_of_message ms ++ rest)
    → All (λ (n : Message). n.timestamp ≤ℤ t) ms
unfolding row_of_message
rows_older t [] rest a = tt
rows_older t (m ∷ ms) rest a = (a.0, rows_older t ms rest a.1)

IsOldestFirst-reverse :
    (ms : List Message) (rest : List MessageRow)
    → IsNewestFirst (map row_of_message ms ++ rest)
    → IsOldestFirst (reverse ms)
IsOldestFirst-reverse [] rest s = tt
IsOldestFirst-reverse (m ∷ ms) rest s = rw (List.reverse-cons m ms) (
    IsOldestFirst-append (reverse ms) m (IsOldestFirst-reverse ms rest s.1) (
      All-reverse (λ (n : Message). n.timestamp ≤ℤ m.timestamp) ms
        (rows_older m.timestamp ms rest (unfold row_of_message in s.0))))

is_wanted-peer_id :
    (k : PeerId) (before : Option Timestamp) (row : MessageRow)
    → is_wanted k before row ≡ true
    → row.peer_id ≡ k
is_wanted-peer_id k before row h = (eq_iff row.peer_id k).0 (ground arith)

module _ (sql : Sqlite) (json : Json) (mp : MsgPack) (toml : Toml) (o : Outside)
    (calm : IsCalm o) where
  page_of :
      (app : DaemonApp) (k : PeerId) (limit : ℕ) (before : Option Timestamp) (ms : List Message)
      → get_messages sql none app.db k limit before ≡ ok ms
      → handle_get_messages sql json mp toml o app k limit before ≡ ServerMessage.messages ms
  unfolding handle_get_messages
  page_of app k limit before ms h =
      rw (calm.lock, calm.fetch_messages) (rw (h, handle_get_messages) refl)

  messages_inj :
      (xs ys : List Message) → ServerMessage.messages xs ≡ ServerMessage.messages ys → xs ≡ ys
  messages_inj xs ys h = ground arith

  -- A client that receives a page which is not empty, from a daemon with a well-formed database in a
  -- step where nothing fails, shows it as the history with the peer it asked for, and shows the
  -- oldest message first.
  pub handle_server_message-handle_get_messages :
      (app : DaemonApp) (client : TuiApp) (k : PeerId) (limit : ℕ) (before : Option Timestamp)
      (m : Message) (ms : List Message)
      → IsWellFormed json app.db
      → handle_get_messages sql json mp toml o app k limit before ≡ ServerMessage.messages (m ∷ ms)
      → (client' : TuiApp) × (handle_server_message client
            (handle_get_messages sql json mp toml o app k limit before)
          ≡ client')
        × (history client'.messages k ≡ reverse (m ∷ ms))
        × IsOldestFirst (history client'.messages k)
  handle_server_message-handle_get_messages app client k limit before m ms w got =
      let (xs, rest, read, _, perm, newest) = get_messages_page sql json app.db w k limit before in
      let same : xs ≡ m ∷ ms =
        messages_inj xs (m ∷ ms) (sym (page_of app k limit before xs read) ∙ got) in
      let chosen : all (is_wanted k before) (map row_of_message xs ++ rest) ≡ true =
        all-perm (is_wanted k before) perm ∙ all-keep_self (is_wanted k before) app.db.messages in
      let asked : m.peer_id ≡ k = first_peer k before m ms rest (rw same at chosen) in
      let shown : history (handle_server_message client (ServerMessage.messages (m ∷ ms))).messages
            k
          ≡ reverse (m ∷ ms) =
        (handle_server_message-messages client m ms).1 k ∙ rw (asked, eq_refl k) refl in
      (
        handle_server_message client (ServerMessage.messages (m ∷ ms)),
        ap (handle_server_message client) got,
        shown,
        rw shown (IsOldestFirst-reverse (m ∷ ms) rest (rw same at newest)),
      )
    where
      first_peer :
          (k : PeerId) (before : Option Timestamp) (m : Message) (ms : List Message)
          (rest : List MessageRow)
          → all (is_wanted k before) (map row_of_message (m ∷ ms) ++ rest) ≡ true
          → m.peer_id ≡ k
      first_peer k before m ms rest h =
          unfold row_of_message in
          is_wanted-peer_id k before (row_of_message m) (unfold all in ground arith)
