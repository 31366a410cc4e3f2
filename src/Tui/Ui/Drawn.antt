-- ===== src/Tui/Ui/Drawn.antt =====
-- Every state that the client reaches can be drawn.
use Prim.Native.String.{◌++◌}
use family_com.Prelude.{
  char_count, List, ok, ℕ, ◌+◌, ◌%◌, ◌<◌, ◌≡◌, refl, ap, ◌∙◌, String, true, false, Option, none,
  some, arith, if◌then◌else◌, split_at?, split_at?-append, byte_length,
}
use mathlib.Core.Option
use family_com.Core.Ipc.{ClientRequest, ServerMessage, IpcJson}
use family_com.Tui.Main.{Session, Turn, Start, start, run_loop}
use family_com.Tui.Main.Startup.{run_loop-IsValid_started}
use family_com.Core.Types.{Timestamp}
use family_com.Tui.App.{TuiApp, FocusedPanel}
use family_com.Tui.App.Validity.{IsValid}
use family_com.Tui.Event.{Rect, PanelRects, u16_mod}
use family_com.Tui.Ui.Style.{is_focused}
use family_com.Tui.Ui.Input.{InputView, cursor_at}
use family_com.Tui.Ui.Input as Input
use family_com.Tui.Ui.Render.{Splits, Screen, render, draw_panels}

-- A valid state has its input cut at the cursor.
split_at?-IsValid :
    (app : TuiApp) (v : IsValid app)
    → split_at? app.input app.input_cursor ≡ some (v.before, v.after)
split_at?-IsValid app v =
    ap (λ i. split_at? i app.input_cursor) v.text
    ∙ ap (split_at? (v.before ++ v.after)) v.cursor
    ∙ split_at?-append v.before v.after

module _ (app : TuiApp) (before after : String) (area : Rect) where
  Input-render_lem :
      (view : Option InputView)
      → split_at? app.input app.input_cursor ≡ some (before, after)
      → Input.render app area ≡ view
      → (x : InputView) × (view ≡ some x)
        × (x.cursor ≡ (
            if is_focused app.focused FocusedPanel.input
            then some (cursor_at area (char_count before))
            else none))
  unfolding Input.render
  Input-render_lem none cut e = absurd (ground (arith, cut, e))
  Input-render_lem (some x) cut e = (x, refl, ground (arith, cut, e))

-- The columns do not wrap where they fit.
cursor_at-small :
    (area : Rect) (n : ℕ)
    → area.x + 3 + n < u16_mod
    → area.y + 1 < u16_mod
    → cursor_at area n ≡ (area.x + 3 + n, area.y + 1)
unfolding cursor_at
cursor_at-small area n h k =
    let column : (area.x + 1 + 2 + n % u16_mod) % u16_mod ≡ area.x + 3 + n = omega arith in
    let row : (area.y + 1) % u16_mod ≡ area.y + 1 = omega arith in rw (column, row) refl

-- A frame can be drawn of a state, whatever its size is and however it is split: the rectangles are
-- saved, and the cursor is shown exactly if the input is focused, after the characters before it.
abbrev pub IsDrawn : TuiApp → Type 0
IsDrawn app =
    (format_local_time : Timestamp → String) (splits : Splits) (size : Rect)
    → (screen : Screen) × (rects : PanelRects) × (before after : String) × (render format_local_time
          splits app size
        ≡ some (screen, rects))
      × (rects.input ≡ (splits.vertical size).1)
      × (app.input ≡ before ++ after)
      × (app.input_cursor ≡ byte_length before)
      × (is_focused app.focused FocusedPanel.input ≡ false → screen.input.cursor ≡ none)
      × (is_focused app.focused FocusedPanel.input ≡ true
          → rects.input.x + 3 + char_count before < u16_mod
          → rects.input.y + 1 < u16_mod
          → screen.input.cursor ≡ some (rects.input.x + 3 + char_count before, rects.input.y + 1))

pub IsDrawn-IsValid : (app : TuiApp) → IsValid app → IsDrawn app
IsDrawn-IsValid app v format_local_time splits size =
    let area = (splits.vertical size).1 in
    let (x, e, cursor) =
      Input-render_lem app v.before v.after area (Input.render app area) (split_at?-IsValid app v)
        refl in
    let f = draw_panels format_local_time splits app size in
    (
      (f x).0,
      (f x).1,
      v.before,
      v.after,
      unfold render in ap (Option.map f) e,
      unfold draw_panels in refl,
      v.text,
      v.cursor,
      (λ off.
          unfold draw_panels in
          cursor ∙ ap (λ b. if b then some (cursor_at area (char_count v.before)) else none) off),
      λ on h k.
          unfold draw_panels in
          cursor
          ∙ ap (λ b. if b then some (cursor_at area (char_count v.before)) else none) on
          ∙ ap some (cursor_at-small area (char_count v.before) h k),
    )

module _ (requests : IpcJson ClientRequest) (responses : IpcJson ServerMessage) where
  -- However the client starts, if it starts, and whatever comes then, it does not panic, and a frame
  -- can be drawn at the start and in the end.
  pub run_loop-IsDrawn :
      (w : Start) (turns : List Turn) (r : Option Session)
      → start requests responses w ≡ ok r
      → (s s' : Session) × (r ≡ some s)
        × (run_loop requests responses turns s ≡ some s')
        × IsDrawn s.app
        × IsDrawn s'.app
  run_loop-IsDrawn w turns r h =
      let (s, e, valid, after) = run_loop-IsValid_started requests responses w turns r h in
      let (s', ran, valid') = after in
      (s, s', e, ran, IsDrawn-IsValid s.app valid, IsDrawn-IsValid s'.app valid')
