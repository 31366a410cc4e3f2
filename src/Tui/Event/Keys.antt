-- ===== src/Tui/Event/Keys.antt =====
-- Which events end the client.
use family_com.Prelude.{◌≡◌, ◌≢◌, ◌↔◌, Bool, true, false, ◌&&◌, ◌||◌, some, eqb, code, arith}
use family_com.Tui.App.{TuiApp, Action, FocusedPanel}
use family_com.Tui.Event.{
  KeyCode, MouseEvent, TerminalEvent, PanelRects, handle_key_event, handle_mouse_event,
  handle_event,
}

abbrev not_input : FocusedPanel → Bool
not_input FocusedPanel.input = false
not_input _ = true

-- Ctrl+C, Esc, or q outside the input.
abbrev pub ends : KeyCode → Bool → FocusedPanel → Bool
ends KeyCode.esc control panel = true
ends (KeyCode.char c) control panel =
    control && eqb (code c) b'c' || (not_input panel && eqb (code c) b'q')
ends _ control panel = false

abbrev pub ends_client : TerminalEvent → FocusedPanel → Bool
ends_client (TerminalEvent.key k) panel = ends k.code k.control panel
ends_client _ panel = false

key_quit :
    (c : KeyCode) (control : Bool) (app : TuiApp)
    → (handle_key_event (record { code = c; control = control }) app ≡ some Action.quit)
      ↔ (ends c control app.focused ≡ true)
unfolding handle_key_event
key_quit (KeyCode.char c) true app = (λ h. ground arith, λ h. ground arith)
key_quit (KeyCode.char c) false app = (λ h. ground arith, λ h. ground arith)
key_quit _ control app = (λ h. ground arith, λ h. ground arith)

mouse_quit : (m : MouseEvent) (rects : PanelRects) → handle_mouse_event m rects ≢ some Action.quit
unfolding handle_mouse_event
mouse_quit m rects = λ h. ground arith

-- The client is told to quit exactly by Ctrl+C, by Esc in every panel, and by q outside the input;
-- never by the mouse.
pub handle_event_quit_iff :
    (e : TerminalEvent) (rects : PanelRects) (app : TuiApp)
    → (handle_event e rects app ≡ some Action.quit) ↔ (ends_client e app.focused ≡ true)
unfolding handle_event
handle_event_quit_iff (TerminalEvent.key k) rects app = key_quit k.code k.control app
handle_event_quit_iff (TerminalEvent.mouse m) rects app =
    (λ h. absurd (mouse_quit m rects h), λ h. cc)
handle_event_quit_iff TerminalEvent.other_event rects app = (λ h. cc, λ h. cc)
