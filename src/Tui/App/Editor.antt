-- ===== src/Tui/App/Editor.antt =====
-- The input line as an editor: the text before the cursor, and the text after it.
use Prim.Native.String.{◌++◌}
use text.Mathlib.TextLemmas.{nil-append, cons-append, append-nil, append_assoc}
use mathlib.Core.Path.{ap₂}
use family_com.Prelude.{
  split_at?-append, ℕ, ◌+◌, ◌≡◌, refl, ap, sym, ◌∙◌, String, Char, true, false, some, arith, ltb,
  eqb, len_utf8, len_utf8_pos, byte_length, byte_length-append, Bool-cases, inl, inr,
}
use family_com.Tui.App.{
  TuiApp, Action, last_index, first_len, insert_char, drain, handle_action, handle_input_char,
  handle_input_backspace, handle_input_delete, handle_input_left, handle_input_right,
}
use family_com.Tui.App.Texts.{
  drain-append, drop_last, last_text, first_text, rest_text, drop_last-append-last_text,
  byte_length-drop_last, byte_length-split, first_text-append-rest_text, byte_length-first_text,
}

-- The state with a text before the cursor and a text after it.
abbrev pub showing : TuiApp → String → String → TuiApp
showing app a b = record app { input = a ++ b; input_cursor = byte_length a }

-- The edits, as those of the two texts.
pub data Edit : Type 0 where
  types : Char → Edit
  backspace delete left right home end : Edit

abbrev pub action_of : Edit → Action
action_of (types c) = Action.input_char c
action_of backspace = Action.input_backspace
action_of delete = Action.input_delete
action_of left = Action.input_left
action_of right = Action.input_right
action_of home = Action.input_home
action_of end = Action.input_end

unfoldable pub edit : Edit → String × String → String × String
unfolding drop_last last_text first_text rest_text
edit (types c) (a, b) = (a ++ String.◌∷◌ c String.[], b)
edit backspace (a, b) = (drop_last a, b)
edit delete (a, b) = (a, rest_text b)
edit left (a, b) = (drop_last a, last_text a ++ b)
edit right (a, b) = (a ++ first_text b, rest_text b)
edit home (a, b) = (String.[], a ++ b)
edit end (a, b) = (a ++ b, String.[])

showing-eq :
    (app : TuiApp) (s a b : String) (n : ℕ)
    → s ≡ a ++ b
    → n ≡ byte_length a
    → record app { input = s; input_cursor = n } ≡ showing app a b
showing-eq app s a b n e f = ap₂ (λ t m. record app { input = t; input_cursor = m }) e f

at_start : (a : String) → (eqb (byte_length a) 0 ≡ true) → a ≡ String.[]
unfolding byte_length
at_start String.[] h = refl
at_start (String.◌∷◌ c s) h = absurd (ground (arith, len_utf8_pos c))

at_end : (a b : String) → ltb (byte_length a) (byte_length (a ++ b)) ≡ false → b ≡ String.[]
at_end a String.[] h = refl
at_end a (String.◌∷◌ c s) h =
    unfold byte_length in
    absurd (ground (arith, byte_length-append a (String.◌∷◌ c s), len_utf8_pos c))

module _ (app : TuiApp) (a b : String) where
  types-showing :
      (c : Char)
      → handle_input_char (showing app a b) c ≡ some (showing app (a ++ String.◌∷◌ c String.[]) b)
  unfolding handle_input_char insert_char
  types-showing c =
      let one : String = String.◌∷◌ c String.[] in
      rw (split_at?-append a b, handle_input_char, insert_char)
        (ap (λ x. some x)
          (showing-eq app (a ++ String.◌∷◌ c b) (a ++ one) b (byte_length a + len_utf8 c)
            (ap (λ t. a ++ t) (sym (cons-append c String.[] b ∙ ap (String.◌∷◌ c) (nil-append b)))
              ∙ sym (append_assoc a one b))
            (unfold byte_length in omega (arith, byte_length-append a one))))

  joined : a ++ b ≡ drop_last a ++ (last_text a ++ b)
  joined =
      ap (λ t. t ++ b) (sym (drop_last-append-last_text a))
      ∙ append_assoc (drop_last a) (last_text a) b

  drained : drain (a ++ b) (last_index a) (byte_length a) ≡ some (drop_last a ++ b)
  drained =
      rw (joined, byte_length-split a)
        (rw (← byte_length-drop_last a) (drain-append (drop_last a) (last_text a) b))

  backspace-showing : handle_input_backspace (showing app a b) ≡ some (showing app (drop_last a) b)
  unfolding handle_input_backspace
  backspace-showing = elim (Bool-cases (eqb (byte_length a) 0)) [
    | inl start ↦ rw (at_start a start) (unfold byte_length drop_last in refl)
    | inr inside ↦
        rw (inside, split_at?-append a b, handle_input_backspace, drained)
          (ap (λ n. some (record app { input = drop_last a ++ b; input_cursor = n }))
            (sym (byte_length-drop_last a)))
  ]

  left-showing :
      handle_input_left (showing app a b) ≡ some (showing app (drop_last a) (last_text a ++ b))
  unfolding handle_input_left
  left-showing = elim (Bool-cases (eqb (byte_length a) 0)) [
    | inl start ↦
        rw (at_start a start)
          (unfold byte_length drop_last last_text in rw (nil-append (String.[] ++ b)) refl)
    | inr inside ↦
        rw (inside, split_at?-append a b, handle_input_left)
          (ap (λ x. some x)
            (showing-eq app _ (drop_last a) (last_text a ++ b) _ joined
              (sym (byte_length-drop_last a))))
  ]

  cut_after : a ++ b ≡ (a ++ first_text b) ++ rest_text b
  cut_after =
      ap (λ t. a ++ t) (sym (first_text-append-rest_text b))
      ∙ sym (append_assoc a (first_text b) (rest_text b))

  drained_after :
      drain (a ++ b) (byte_length a) (byte_length a + first_len b) ≡ some (a ++ rest_text b)
  drained_after =
      rw (← byte_length-first_text b)
        (rw (first_text-append-rest_text b) at (drain-append a (first_text b) (rest_text b)))

  delete-showing : handle_input_delete (showing app a b) ≡ some (showing app a (rest_text b))
  unfolding handle_input_delete
  delete-showing = elim (Bool-cases (ltb (byte_length a) (byte_length (a ++ b)))) [
    | inl inside ↦ rw (inside, split_at?-append a b, handle_input_delete, drained_after) refl
    | inr at_last ↦
        rw (at_last, handle_input_delete) (rw (at_end a b at_last) (unfold rest_text in refl))
  ]

  right-showing :
      handle_input_right (showing app a b) ≡ some (showing app (a ++ first_text b) (rest_text b))
  unfolding handle_input_right
  right-showing = elim (Bool-cases (ltb (byte_length a) (byte_length (a ++ b)))) [
    | inl inside ↦
        rw (inside, split_at?-append a b, handle_input_right)
          (ap (λ x. some x)
            (showing-eq app (a ++ b) (a ++ first_text b) (rest_text b) (byte_length a + first_len b)
              cut_after
              (omega (arith, byte_length-append a (first_text b), byte_length-first_text b))))
    | inr at_last ↦
        rw (at_last, handle_input_right)
          (rw (at_end a b at_last)
            (unfold rest_text first_text in rw (append-nil a, append-nil a) refl))
  ]

-- Every edit of the input line does to the text before the cursor and to the text after it what its
-- name says, on whole characters, and never panics; nothing else of the state changes.
pub handle_action-showing :
    (app : TuiApp) (a b : String) (e : Edit)
    → handle_action (showing app a b) (action_of e)
      ≡ some (showing app (edit e (a, b)).0 (edit e (a, b)).1)
unfolding handle_action edit
handle_action-showing app a b (types c) = types-showing app a b c
handle_action-showing app a b backspace = backspace-showing app a b
handle_action-showing app a b delete = delete-showing app a b
handle_action-showing app a b left = left-showing app a b
handle_action-showing app a b right = right-showing app a b
handle_action-showing app a b home =
    ap (λ x. some x)
      (showing-eq app (a ++ b) String.[] (a ++ b) 0 (sym (nil-append (a ++ b)))
        (unfold byte_length in refl))
handle_action-showing app a b end =
    ap (λ x. some x)
      (showing-eq app (a ++ b) (a ++ b) String.[] (byte_length (a ++ b)) (sym (append-nil (a ++ b)))
        refl)
