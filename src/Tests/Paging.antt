-- ===== src/Tests/Paging.antt =====
-- A page of one message, from the daemon to the client.
use family_com.Prelude.{◌≡◌, refl, [], ◌∷◌, reverse, none, keep, take, any}
use family_com.Core.Types.{as_db_str, from_db_str}
use family_com.Core.Db.{
  get_messages, page, selects, collect, message_of_row, row_of_message, save_message, upsert_peer,
  has_message, has_peer, replace_peer,
}
use family_com.Core.Ipc.{ServerMessage}
use family_com.Daemon.App.{DaemonApp, handle_get_messages}
use family_com.Tui.App.{TuiApp, new, handle_server_message}
use family_com.Tui.App.History.{history}
use family_com.Tui.App.Paging.{IsOldestFirst, handle_server_message-handle_get_messages}
use family_com.Tests.Engines.{sqlite, json, sort_rows, insert_row}
use family_com.Tests.Codecs.{toml, msg_pack}
use family_com.Tests.Samples.{
  hello, with_hello, with_hello-IsWellFormed, outside, outside-IsCalm, daemon,
}

abbrev told : DaemonApp
told = record daemon { db = with_hello }

answered :
    handle_get_messages sqlite json msg_pack toml outside told "alice" 50 none
    ≡ ServerMessage.messages (hello ∷ [])
unfolding handle_get_messages get_messages page selects collect message_of_row row_of_message
    save_message upsert_peer has_message has_peer replace_peer any keep take as_db_str from_db_str
    sort_rows insert_row
answered = refl

handle_server_message-handle_get_messages_example :
    (client' : TuiApp) × (handle_server_message new
        (handle_get_messages sqlite json msg_pack toml outside told "alice" 50 none)
      ≡ client')
    × (history client'.messages "alice" ≡ reverse (hello ∷ []))
    × IsOldestFirst (history client'.messages "alice")
handle_server_message-handle_get_messages_example =
    handle_server_message-handle_get_messages sqlite json msg_pack toml outside outside-IsCalm told
      new "alice" 50 none hello [] with_hello-IsWellFormed answered
