-- ===== src/Tui/App/State.antt =====
-- crates/familycom/src/app.rs: the state of the terminal client, its actions and its selections.
use mathlib.Core.Option
use family_com.Prelude.{
  ℕ, String, Char, Bool, false, List, [], Option, none, some, HashMap, get, get_elem?,
}
use family_com.Core.Types.{PeerId, PeerInfo, Message}
use family_com.Core.Ipc.{ServerMessage}

pub data FocusedPanel : Type 0 where
  peer_list messages input : FocusedPanel

pub data Action : Type 0 where
  quit next_focus next_peer prev_peer scroll_up scroll_down : Action
  input_char : Char → Action
  input_backspace input_delete input_left input_right input_home input_end send_message : Action
  focus_panel : FocusedPanel → Action
  select_peer : ℕ → Action
  server_message : ServerMessage → Action

pub record TuiApp : Type 0 where
  pub peers : List PeerInfo
  pub selected_peer_idx : Option ℕ
  pub messages : HashMap (List Message)
  pub input : String
  pub input_cursor : ℕ
  pub focused : FocusedPanel
  pub messages_scroll : ℕ
  pub our_name : String
  pub our_peer_id : Option PeerId
  pub status : String
  pub should_quit : Bool

-- `TuiApp::new`.
abbrev pub new : TuiApp
new = record {
  peers = [];
  selected_peer_idx = none;
  messages = [];
  input = "";
  input_cursor = 0;
  focused = FocusedPanel.peer_list;
  messages_scroll = 0;
  our_name = "";
  our_peer_id = none;
  status = "Connecting...";
  should_quit = false;
}

unfoldable pub selected_peer : TuiApp → Option PeerInfo
selected_peer app = elim app.selected_peer_idx [ none ↦ none | some idx ↦ get_elem? app.peers idx ]

unfoldable pub selected_peer_id : TuiApp → Option PeerId
unfolding selected_peer
selected_peer_id app = Option.map (λ (p : PeerInfo). p.id) (selected_peer app)

unfoldable pub current_messages : TuiApp → List Message
unfolding selected_peer_id
current_messages app = elim (selected_peer_id app) [
  | none ↦ []
  | some id ↦ elim (get app.messages id) [ none ↦ [] | some ms ↦ ms ]
]

-- The largest `u16`.
abbrev pub max_u16 : ℕ
max_u16 = 65535

unfoldable pub next_panel : FocusedPanel → FocusedPanel
next_panel FocusedPanel.peer_list = FocusedPanel.messages
next_panel FocusedPanel.messages = FocusedPanel.input
next_panel FocusedPanel.input = FocusedPanel.peer_list
