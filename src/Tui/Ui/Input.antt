-- ===== src/Tui/Ui/Input.antt =====
-- crates/familycom/src/ui/input.rs: the input line and its cursor. Numbers of `u16` wrap.
use Prim.Native.String.{◌++◌}
use mathlib.Core.Option
use family_com.Prelude.{
  ℕ, ◌+◌, ◌%◌, String, Bool, not, ◌&&◌, Option, none, some, if◌then◌else◌, is_blank, split_at?,
  char_count,
}
use family_com.Tui.App.{TuiApp, FocusedPanel}
use family_com.Tui.Event.{Rect, u16_mod}
use family_com.Tui.Ui.Style.{Block, block, is_focused}

pub record InputView : Type 0 where
  pub block : Block
  pub text : String
  pub cursor : Option (ℕ × ℕ)

-- `visual_cursor_offset`; `none` is a panic.
unfoldable pub visual_cursor_offset : String → ℕ → Option ℕ
visual_cursor_offset input byte_cursor =
    Option.map (λ (p : String × String). char_count p.0) (split_at? input byte_cursor)

unfoldable pub display_text : TuiApp → Bool → String
display_text app focused = if is_blank app.input && not focused then "" else "> " ++ app.input

-- The place of the cursor in a focused panel.
unfoldable pub cursor_at : Rect → ℕ → ℕ × ℕ
cursor_at area offset = ((area.x + 1 + 2 + offset % u16_mod) % u16_mod, (area.y + 1) % u16_mod)

-- `render`; `none` is a panic.
unfoldable pub render : TuiApp → Rect → Option InputView
unfolding visual_cursor_offset display_text cursor_at
render app area =
    let focused = is_focused app.focused FocusedPanel.input in
    let title =
      if focused then " Escribe un mensaje (Enter para enviar) " else " Escribe un mensaje... " in
    let view : Option (ℕ × ℕ) → InputView = λ cursor. record {
      block = block title focused;
      text = display_text app focused;
      cursor = cursor;
    } in
    if focused
    then Option.map (λ offset. view (some (cursor_at area offset)))
        (visual_cursor_offset app.input app.input_cursor)
    else some (view none)
