-- ===== src/Tui/Ui/Messages.antt =====
-- crates/familycom/src/ui/messages.rs: the history with the selected peer.
use Prim.Native.String.{◌++◌ as ◌<>◌}
use Prim.Native.Char.{code}
use family_com.Prelude.{
  ℕ, String, Bool, true, false, ◌&&◌, List, [], ◌∷◌, ◌++◌, Option, none, some, map, eqb,
  if◌then◌else◌,
}
use family_com.Core.Types.{Timestamp, Message, Direction, sent, received}
use family_com.Tui.App.{TuiApp, FocusedPanel, selected_peer, current_messages}
use family_com.Tui.Ui.Style.{
  Color, cyan, dark_gray, white, yellow, Line, Block, styled, raw, block, is_focused,
}

-- The first line of a text and those after it, if the text is not empty. A line ends with "\n" or
-- "\r\n", and the last one may have no end.
unfoldable pub first_line : String → Option (String × List String)
first_line String.[] = none
first_line (String.◌∷◌ c s) =
    let rest = first_line s in
    if eqb (code c) 10
    then some ("", elim rest [ none ↦ [] | some (l, ls) ↦ l ∷ ls ])
    else if eqb (code c) 13 && starts_line s
    then rest
    else elim rest [ none ↦ some (String.◌∷◌ c "", []) | some (l, ls) ↦ some (String.◌∷◌ c l, ls) ]
  where
    starts_line : String → Bool
    starts_line String.[] = false
    starts_line (String.◌∷◌ d _) = eqb (code d) 10

-- `str::lines`.
unfoldable pub lines : String → List String
unfolding first_line
lines s = elim (first_line s) [ none ↦ [] | some (l, ls) ↦ l ∷ ls ]

-- A text in an empty panel, or the lines with the scroll offset.
pub data MessagesView : Type 0 where
  no_messages : Block → String → MessagesView
  paragraph : Block → List Line → ℕ → MessagesView

unfoldable pub title : TuiApp → String
unfolding selected_peer
title app = elim (selected_peer app) [
  | none ↦ " Mensajes "
  | some peer ↦ " Mensajes - " <> (peer.display_name <> " ")
]

unfoldable pub empty_text : TuiApp → String
unfolding selected_peer
empty_text app = elim (selected_peer app) [
  | none ↦ "Selecciona un peer para ver mensajes"
  | some peer ↦ "No hay mensajes aun. Escribe algo!"
]

-- Whose message it is, and in which colour.
unfoldable pub sender : TuiApp → Direction → String × Color
unfolding selected_peer
sender app sent = ("Yo", cyan)
sender app received =
    (elim (selected_peer app) [ none ↦ "???" | some peer ↦ peer.display_name ], yellow)

unfoldable pub delivery_indicator : Message → String
delivery_indicator msg = elim msg.direction [
  | sent ↦ if msg.delivered then " [ok]" else " [...]"
  | received ↦ ""
]

-- The lines of a message: its header, its content, and an empty one. `format_local_time` is that of
-- the timestamps.
unfoldable pub message_lines : (Timestamp → String) → TuiApp → Message → List Line
unfolding sender delivery_indicator lines
message_lines format_local_time app msg =
    let (name, color) = sender app msg.direction in
    (styled ("[" <> (format_local_time msg.timestamp <> "] ")) dark_gray
      ∷ record { text = name <> ":"; fg = some color; bold = true }
      ∷ styled (delivery_indicator msg) dark_gray
      ∷ [])
    ∷ (map (λ l. styled ("  " <> l) white ∷ []) (lines msg.content) ++ (raw "" ∷ []) ∷ [])

unfoldable pub all_lines : (Timestamp → String) → TuiApp → List Message → List Line
unfolding message_lines
all_lines format_local_time app [] = []
all_lines format_local_time app (msg ∷ rest) =
    message_lines format_local_time app msg ++ all_lines format_local_time app rest

-- `render`.
unfoldable pub render : (Timestamp → String) → TuiApp → MessagesView
unfolding title empty_text all_lines current_messages
render format_local_time app =
    let panel = block (title app) (is_focused app.focused FocusedPanel.messages) in
    elim (current_messages app) [
      | [] ↦ no_messages panel (empty_text app)
      | msg ∷ rest ↦
          paragraph panel (all_lines format_local_time app (msg ∷ rest)) app.messages_scroll
    ]
