-- ===== src/Tui/App/Input.antt =====
-- crates/familycom/src/app.rs: the actions on the input line. The cursor is an offset in bytes.
use Prim.Native.String.{◌++◌}
use mathlib.Core.Option
use family_com.Prelude.{
  ℕ, ◌+◌, String, Char, Option, none, some, ltb, eqb, if◌then◌else◌, len_utf8, byte_length,
  is_blank, split_at?,
}
use family_com.Tui.App.State.{TuiApp}

-- `char_indices().next_back()`, with 0 for an empty text.
unfoldable pub last_index : String → ℕ
last_index String.[] = 0
last_index (String.◌∷◌ c s) = let rest = last_index s in if is_blank s then 0 else len_utf8 c + rest

-- The length of the first character, with 0 for an empty text.
unfoldable pub first_len : String → ℕ
first_len String.[] = 0
first_len (String.◌∷◌ c s) = len_utf8 c

-- `String::insert`.
unfoldable pub insert_char : String → ℕ → Char → Option String
insert_char s idx ch =
    Option.map (λ (p : String × String). p.0 ++ String.◌∷◌ ch p.1) (split_at? s idx)

-- `String::drain` of a range.
unfoldable pub drain : String → ℕ → ℕ → Option String
drain s start end = elim (split_at? s start) [
  | none ↦ none
  | some (before, _) ↦ elim (split_at? s end) [
    | none ↦ none
    | some (_, after) ↦ if ltb end start then none else some (before ++ after)
  ]
]

unfoldable pub handle_input_char : TuiApp → Char → Option TuiApp
unfolding insert_char
handle_input_char app ch =
    Option.map (λ s. record app { input = s; input_cursor = app.input_cursor + len_utf8 ch })
      (insert_char app.input app.input_cursor ch)

unfoldable pub handle_input_backspace : TuiApp → Option TuiApp
unfolding drain last_index
handle_input_backspace app =
    if eqb app.input_cursor 0 then some app else elim (split_at? app.input app.input_cursor) [
      | none ↦ none
      | some (before, _) ↦
          Option.map (λ s. record app { input = s; input_cursor = last_index before })
            (drain app.input (last_index before) app.input_cursor)
    ]

unfoldable pub handle_input_delete : TuiApp → Option TuiApp
unfolding drain first_len
handle_input_delete app =
    if ltb app.input_cursor (byte_length app.input)
    then elim (split_at? app.input app.input_cursor) [
      | none ↦ none
      | some (_, after) ↦
          Option.map (λ s. record app { input = s })
            (drain app.input app.input_cursor (app.input_cursor + first_len after))
    ]
    else some app

unfoldable pub handle_input_left : TuiApp → Option TuiApp
unfolding last_index
handle_input_left app =
    if eqb app.input_cursor 0
    then some app
    else Option.map (λ (p : String × String). record app { input_cursor = last_index p.0 })
        (split_at? app.input app.input_cursor)

unfoldable pub handle_input_right : TuiApp → Option TuiApp
unfolding first_len
handle_input_right app =
    if ltb app.input_cursor (byte_length app.input)
    then Option.map
        (λ (p : String × String). record app { input_cursor = app.input_cursor + first_len p.1 })
        (split_at? app.input app.input_cursor)
    else some app
