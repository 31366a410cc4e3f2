-- ===== src/Tui/Event.antt =====
-- crates/familycom/src/event.rs: from what crossterm reports to an action. A key or mouse button that
-- has no binding is one constructor; sums of `u16` wrap around, as in a release build.
pub mod Keys
use family_com.Prelude.{
  ℕ, ◌+◌, ◌-◌, ◌%◌, Char, Bool, true, false, ◌&&◌, Option, none, some, ltb, leb, eqb, code,
  if◌then◌else◌,
}
use family_com.Tui.App.{TuiApp, Action, FocusedPanel}

pub data KeyCode : Type 0 where
  char : Char → KeyCode
  tab back_tab up down page_up page_down enter backspace delete left right home end esc : KeyCode
  other_key : KeyCode

pub record KeyEvent : Type 0 where
  pub code : KeyCode
  pub control : Bool

pub data MouseEventKind : Type 0 where
  down_left scroll_up scroll_down other_button : MouseEventKind

pub record MouseEvent : Type 0 where
  pub kind : MouseEventKind
  pub column : ℕ
  pub row : ℕ

pub data TerminalEvent : Type 0 where
  key : KeyEvent → TerminalEvent
  mouse : MouseEvent → TerminalEvent
  other_event : TerminalEvent

pub record Rect : Type 0 where
  pub x : ℕ
  pub y : ℕ
  pub width : ℕ
  pub height : ℕ

-- The rectangles of the last render pass, which `TuiApp` keeps.
pub record PanelRects : Type 0 where
  pub peers : Rect
  pub messages : Rect
  pub input : Rect

abbrev pub is_char : KeyCode → ℕ → Bool
is_char (char c) n = eqb (code c) n
is_char _ n = false

-- The actions that a letter has outside the input.
unfoldable pub letter_action : Char → Action → Action → Option Action
letter_action c previous next =
    if eqb (code c) b'k'
    then some previous
    else if eqb (code c) b'j'
    then some next
    else if eqb (code c) b'q'
    then some Action.quit
    else none

unfoldable pub handle_peer_list_key : KeyCode → Option Action
unfolding letter_action
handle_peer_list_key KeyCode.up = some Action.prev_peer
handle_peer_list_key KeyCode.down = some Action.next_peer
handle_peer_list_key KeyCode.esc = some Action.quit
handle_peer_list_key (KeyCode.char c) = letter_action c Action.prev_peer Action.next_peer
handle_peer_list_key _ = none

unfoldable pub handle_messages_key : KeyCode → Option Action
unfolding letter_action
handle_messages_key KeyCode.page_up = some Action.scroll_up
handle_messages_key KeyCode.up = some Action.scroll_up
handle_messages_key KeyCode.page_down = some Action.scroll_down
handle_messages_key KeyCode.down = some Action.scroll_down
handle_messages_key KeyCode.esc = some Action.quit
handle_messages_key (KeyCode.char c) = letter_action c Action.scroll_up Action.scroll_down
handle_messages_key _ = none

unfoldable pub handle_input_key : KeyCode → Option Action
handle_input_key KeyCode.enter = some Action.send_message
handle_input_key KeyCode.backspace = some Action.input_backspace
handle_input_key KeyCode.delete = some Action.input_delete
handle_input_key KeyCode.left = some Action.input_left
handle_input_key KeyCode.right = some Action.input_right
handle_input_key KeyCode.home = some Action.input_home
handle_input_key KeyCode.end = some Action.input_end
handle_input_key KeyCode.esc = some Action.quit
handle_input_key (KeyCode.char c) = some (Action.input_char c)
handle_input_key _ = none

unfoldable pub focused_key : FocusedPanel → KeyCode → Option Action
unfolding handle_peer_list_key handle_messages_key handle_input_key
focused_key FocusedPanel.peer_list k = handle_peer_list_key k
focused_key FocusedPanel.messages k = handle_messages_key k
focused_key FocusedPanel.input k = handle_input_key k

-- Ctrl+C first, then the two keys that change the focus.
unfoldable pub handle_key_event : KeyEvent → TuiApp → Option Action
unfolding focused_key
handle_key_event key_event app =
    if key_event.control && is_char key_event.code b'c'
    then some Action.quit
    else elim key_event.code [
      | tab ↦ some Action.next_focus
      | back_tab ↦ some Action.next_focus
      | other ↦ focused_key app.focused other
    ]

-- The largest `u16`, and one.
abbrev pub u16_mod : ℕ
u16_mod = 65536

unfoldable pub rect_contains : Rect → ℕ → ℕ → Bool
rect_contains rect col row =
    leb rect.x col
    && (ltb col ((rect.x + rect.width) % u16_mod)
        && (leb rect.y row && ltb row ((rect.y + rect.height) % u16_mod)))

unfoldable pub handle_mouse_event : MouseEvent → PanelRects → Option Action
unfolding rect_contains
handle_mouse_event mouse_event rects = elim mouse_event.kind [
  | down_left ↦
      if rect_contains rects.peers mouse_event.column mouse_event.row
      then some (Action.select_peer (mouse_event.row - (rects.peers.y + 1) % u16_mod))
      else if rect_contains rects.messages mouse_event.column mouse_event.row
      then some (Action.focus_panel FocusedPanel.messages)
      else if rect_contains rects.input mouse_event.column mouse_event.row
      then some (Action.focus_panel FocusedPanel.input)
      else none
  | scroll_up ↦
      if rect_contains rects.messages mouse_event.column mouse_event.row
      then some Action.scroll_up
      else none
  | scroll_down ↦
      if rect_contains rects.messages mouse_event.column mouse_event.row
      then some Action.scroll_down
      else none
  | other_button ↦ none
]

unfoldable pub handle_event : TerminalEvent → PanelRects → TuiApp → Option Action
unfolding handle_key_event handle_mouse_event
handle_event (TerminalEvent.key k) rects app = handle_key_event k app
handle_event (TerminalEvent.mouse m) rects app = handle_mouse_event m rects
handle_event TerminalEvent.other_event rects app = none
