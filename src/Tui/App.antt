-- ===== src/Tui/App.antt =====
-- crates/familycom/src/app.rs: the state of the terminal client, and what an action does to it. A
-- result of `none` is a panic: a text that is cut at an offset inside a character. The rectangles of
-- the last render pass, which no action reads, are left out.
pub mod State
pub mod Input
pub mod Replies
pub mod Texts
pub mod Editor
pub mod Validity
pub mod History
pub mod Paging
unfoldable pub use State.*
unfoldable pub use Input.*
unfoldable pub use Replies.*
use Prim.Native.String.{◌++◌}
use mathlib.Core.Option
use family_com.Prelude.{
  ℕ, zero, suc, ◌+◌, ◌-◌, min, String, Char, Bool, true, false, List, [], ◌∷◌, map, reverse, Option,
  none, some, HashMap, get, insert, length, is_empty, get_elem?, any, push, ltb, leb, eqb,
  if◌then◌else◌, ◌==◌, len_utf8, byte_length, is_blank, split_at?, decimal,
}
use family_com.Core.Types.{PeerId, MessageId, PeerInfo, Message}
use family_com.Core.Ipc.{ServerMessage}

-- The index after and before the selected one, within the list.
unfoldable pub next_index : ℕ → Option ℕ → ℕ
next_index n (some idx) = min (idx + 1) (n - 1)
next_index n none = 0

unfoldable pub prev_index : Option ℕ → ℕ
prev_index (some idx) = idx - 1
prev_index none = 0

unfoldable pub select_index : TuiApp → ℕ → TuiApp
select_index app idx =
    if is_empty app.peers
    then app
    else record app { selected_peer_idx = some idx; messages_scroll = 0 }

unfoldable pub handle_action : TuiApp → Action → Option TuiApp
unfolding next_panel next_index prev_index select_index handle_input_char handle_input_backspace
    handle_input_delete handle_input_left handle_input_right handle_server_message
handle_action app Action.quit = some (record app { should_quit = true })
handle_action app Action.next_focus = some (record app { focused = next_panel app.focused })
handle_action app Action.next_peer =
    some (select_index app (next_index (length app.peers) app.selected_peer_idx))
handle_action app Action.prev_peer = some (select_index app (prev_index app.selected_peer_idx))
handle_action app Action.scroll_up =
    some (record app { messages_scroll = min (app.messages_scroll + 3) max_u16 })
handle_action app Action.scroll_down =
    some (record app { messages_scroll = app.messages_scroll - 3 })
handle_action app (Action.input_char ch) = handle_input_char app ch
handle_action app Action.input_backspace = handle_input_backspace app
handle_action app Action.input_delete = handle_input_delete app
handle_action app Action.input_left = handle_input_left app
handle_action app Action.input_right = handle_input_right app
handle_action app Action.input_home = some (record app { input_cursor = 0 })
handle_action app Action.input_end = some (record app { input_cursor = byte_length app.input })
handle_action app Action.send_message = some app
handle_action app (Action.focus_panel panel) = some (record app { focused = panel })
handle_action app (Action.select_peer idx) = some (
    if is_empty app.peers then app else record app {
      selected_peer_idx = some (min idx (length app.peers - 1));
      focused = FocusedPanel.peer_list;
      messages_scroll = 0;
    })
handle_action app (Action.server_message msg) = some (handle_server_message app msg)

-- `take_input`: the content, and the state with an empty buffer.
unfoldable pub take_input : TuiApp → String × TuiApp
take_input app = (app.input, record app { input = ""; input_cursor = 0 })
