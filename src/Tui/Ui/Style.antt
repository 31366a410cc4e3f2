-- ===== src/Tui/Ui/Style.antt =====
-- The parts of ratatui's widgets that the panels use.
use family_com.Prelude.{String, Bool, true, false, List, Option, none, some, if◌then◌else◌}
use family_com.Tui.App.{FocusedPanel}

pub data Color : Type 0 where
  cyan dark_gray white yellow green : Color

pub record Span : Type 0 where
  pub text : String
  pub fg : Option Color
  pub bold : Bool

abbrev pub Line : Type 0
Line = List Span

pub record Block : Type 0 where
  pub title : String
  pub border : Color

-- `Span::styled` with a colour, and `Span::raw`.
abbrev pub styled : String → Color → Span
styled text color = record { text = text; fg = some color; bold = false }

abbrev pub raw : String → Span
raw text = record { text = text; fg = none; bold = false }

abbrev pub is_focused : FocusedPanel → FocusedPanel → Bool
is_focused FocusedPanel.peer_list FocusedPanel.peer_list = true
is_focused FocusedPanel.messages FocusedPanel.messages = true
is_focused FocusedPanel.input FocusedPanel.input = true
is_focused _ _ = false

-- A panel with the colour of its border, which shows the focus.
abbrev pub block : String → Bool → Block
block title focused = record { title = title; border = if focused then cyan else dark_gray }
