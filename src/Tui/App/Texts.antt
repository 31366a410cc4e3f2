-- ===== src/Tui/App/Texts.antt =====
-- Texts that are cut and joined at byte offsets, and their first and last characters.
use Prim.Native.String.{◌++◌}
use text.Mathlib.TextLemmas.{nil-append, cons-append, append_assoc}
use family_com.Prelude.{
  ◌+◌, ◌≡◌, refl, ap, sym, ◌∙◌, String, false, some, arith, ltb, if◌then◌else◌, len_utf8,
  byte_length, byte_length-append, split_at?-append, is_blank, split_at?,
}
use family_com.Tui.App.{last_index, first_len, drain}

pub drain-append :
    (a m b : String)
    → drain (a ++ (m ++ b)) (byte_length a) (byte_length a + byte_length m) ≡ some (a ++ b)
unfolding drain
drain-append a m b =
    let second : split_at? (a ++ (m ++ b)) (byte_length a + byte_length m) ≡ some (a ++ m, b) =
      rw (← append_assoc a m b, ← byte_length-append a m) (split_at?-append (a ++ m) b) in
    let ordered : ltb (byte_length a + byte_length m) (byte_length a) ≡ false = ground arith in
    rw (split_at?-append a (m ++ b), drain, second, ordered) refl

-- The text without its last character, and that character.
unfoldable pub drop_last : String → String
drop_last String.[] = String.[]
drop_last (String.◌∷◌ c s) =
    let rest = drop_last s in if is_blank s then String.[] else String.◌∷◌ c rest

unfoldable pub last_text : String → String
last_text String.[] = String.[]
last_text (String.◌∷◌ c s) =
    let rest = last_text s in if is_blank s then String.◌∷◌ c String.[] else rest

-- The first character of a text, and the text without it.
unfoldable pub first_text : String → String
first_text String.[] = String.[]
first_text (String.◌∷◌ c s) = String.◌∷◌ c String.[]

unfoldable pub rest_text : String → String
rest_text String.[] = String.[]
rest_text (String.◌∷◌ c s) = s

pub drop_last-append-last_text : (s : String) → drop_last s ++ last_text s ≡ s
unfolding drop_last last_text
drop_last-append-last_text String.[] = nil-append _
drop_last-append-last_text (String.◌∷◌ c String.[]) = nil-append _
drop_last-append-last_text (String.◌∷◌ c (String.◌∷◌ d s)) =
    cons-append c _ _ ∙ ap (String.◌∷◌ c) (drop_last-append-last_text (String.◌∷◌ d s))

pub byte_length-drop_last : (s : String) → byte_length (drop_last s) ≡ last_index s
unfolding drop_last last_index byte_length
byte_length-drop_last String.[] = refl
byte_length-drop_last (String.◌∷◌ c String.[]) = refl
byte_length-drop_last (String.◌∷◌ c (String.◌∷◌ d s)) =
    ap (λ n. len_utf8 c + n) (byte_length-drop_last (String.◌∷◌ d s))

pub byte_length-split : (s : String) → byte_length s ≡ last_index s + byte_length (last_text s)
byte_length-split s =
    ap byte_length (sym (drop_last-append-last_text s))
    ∙ byte_length-append (drop_last s) (last_text s)
    ∙ ap (λ n. n + byte_length (last_text s)) (byte_length-drop_last s)

pub first_text-append-rest_text : (s : String) → first_text s ++ rest_text s ≡ s
unfolding first_text rest_text
first_text-append-rest_text String.[] = nil-append _
first_text-append-rest_text (String.◌∷◌ c s) =
    cons-append c String.[] s ∙ ap (String.◌∷◌ c) (nil-append s)

pub byte_length-first_text : (s : String) → byte_length (first_text s) ≡ first_len s
unfolding first_text first_len byte_length
byte_length-first_text String.[] = refl
byte_length-first_text (String.◌∷◌ c s) = omega arith
