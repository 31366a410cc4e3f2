-- ===== src/Tui/Ui/Render.antt =====
-- crates/familycom/src/ui/layout.rs: a whole frame. The rectangles that ratatui splits an area into
-- are arguments.
use Prim.Native.String.{◌++◌}
use mathlib.Core.Option
use family_com.Prelude.{
  ℕ, String, true, [], ◌∷◌, Option, some, ltb, if◌then◌else◌, length, keep, decimal,
}
use family_com.Core.Types.{PeerInfo, Timestamp}
use family_com.Tui.App.{TuiApp}
use family_com.Tui.Event.{Rect, PanelRects}
use family_com.Tui.Ui.Style.{cyan, green, dark_gray, yellow, Line, styled, raw}
use family_com.Tui.Ui.PeerList as PeerList
use family_com.Tui.Ui.Messages as Messages
use family_com.Tui.Ui.Input as Input

-- The rows of the frame (at least five for the content, three for the input, one for the status), and
-- the columns of the content (a quarter for the peers, the rest for the messages).
pub record Splits : Type 0 where
  pub vertical : Rect → Rect × Rect × Rect
  pub horizontal : Rect → Rect × Rect

pub record Screen : Type 0 where
  pub peers : PeerList.PeerListView
  pub messages : Messages.MessagesView
  pub input : Input.InputView
  pub status : Line

abbrev pub online_count : TuiApp → ℕ
online_count app = length (keep (λ (p : PeerInfo). p.online) app.peers)

-- `render_status_bar`.
unfoldable pub status_bar : TuiApp → Line
status_bar app =
    record { text = " FamilyCom v0.1.0 "; fg = some cyan; bold = true }
    ∷ raw "| "
    ∷ styled
        (decimal (online_count app) ++ ("/" ++ (decimal (length app.peers) ++ " peers online")))
        (if ltb 0 (online_count app) then green else dark_gray)
    ∷ raw " | "
    ∷ styled app.status dark_gray
    ∷ raw " | "
    ∷ styled app.our_name yellow
    ∷ []

-- What is drawn next to the input line, and the rectangles that are saved for the mouse.
unfoldable pub draw_panels :
    (Timestamp → String) → Splits → TuiApp → Rect → Input.InputView → Screen × PanelRects
unfolding PeerList.render Messages.render status_bar
draw_panels format_local_time splits app size input =
    let (content_area, input_area, status_area) = splits.vertical size in
    let (peers_area, messages_area) = splits.horizontal content_area in
    (
      record {
        peers = PeerList.render app;
        messages = Messages.render format_local_time app;
        input = input;
        status = status_bar app;
      },
      record { peers = peers_area; messages = messages_area; input = input_area },
    )

-- `render`; `none` is a panic.
unfoldable pub render : (Timestamp → String) → Splits → TuiApp → Rect → Option (Screen × PanelRects)
unfolding draw_panels
render format_local_time splits app size =
    Option.map (draw_panels format_local_time splits app size)
      (Input.render app (splits.vertical size).1)
