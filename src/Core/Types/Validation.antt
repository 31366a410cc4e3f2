-- ===== src/Core/Types/Validation.antt =====
-- What the validating constructors accept, and the database form of a direction.
use family_com.Prelude.{
  ◌*◌, ◌<◌, ◌≤◌, ◌≡◌, refl, String, ok, err, trim, trim_idem, byte_length, len_utf8, char_count,
  is_blank, arith, false, eq_iff, ◌↔◌,
}
use family_com.Core.Types.{
  Direction, sent, received, as_db_str, from_db_str, new_display_name, name_too_long,
  new_message_content, max_name_length, max_content_length,
}

name_of_ok :
    (s n : String)
    → new_display_name s ≡ ok n
    → (trim s ≡ n) × (is_blank (trim s) ≡ false) × (byte_length (trim s) ≤ max_name_length)
unfolding new_display_name
name_of_ok s n h = ground arith

-- A text comes out of `DisplayName::new` exactly if it is trimmed, not empty and at most 50 bytes
-- long.
pub new_display_name_iff :
    (n : String)
    → ((s : String) × (new_display_name s ≡ ok n))
      ↔ ((trim n ≡ n) × (is_blank n ≡ false) × (byte_length n ≤ max_name_length))
new_display_name_iff n = (
  λ (s, h). let (e, b, l) = name_of_ok s n h in rw (← e) (trim_idem s, b, l),
  λ (t, b, l). (n, accepts t b l),
)
  where
    accepts :
        trim n ≡ n
        → is_blank n ≡ false
        → byte_length n ≤ max_name_length
        → new_display_name n ≡ ok n
    accepts t b l = unfold new_display_name in rw t (ground arith)

-- All characters of the text take two bytes or more.
abbrev pub IsWide : String → Type 0
IsWide String.[] = Unit
IsWide (String.◌∷◌ c s) = (2 ≤ len_utf8 c) × IsWide s

byte_length-IsWide : (s : String) → IsWide s → 2 * char_count s ≤ byte_length s
unfolding char_count byte_length
byte_length-IsWide String.[] w = omega arith
byte_length-IsWide (String.◌∷◌ c s) w = omega (arith, byte_length-IsWide s w.1)

-- A trimmed name of more than 25 characters, each of two bytes or more, is rejected as too long,
-- although the documented limit is 50 characters.
pub new_display_name_wide :
    (s : String)
    → trim s ≡ s
    → is_blank s ≡ false
    → IsWide s
    → 25 < char_count s
    → new_display_name s ≡ err (name_too_long max_name_length (byte_length s))
unfolding new_display_name
new_display_name_wide s t b w h = rw t (ground (arith, byte_length-IsWide s w))

-- A message content is accepted exactly if it is not all whitespace and at most 10,000 bytes long,
-- and what is accepted is the text itself, untrimmed.
pub new_message_content_iff :
    (s c : String)
    → (new_message_content s ≡ ok c)
      ↔ ((c ≡ s) × (is_blank (trim s) ≡ false) × (byte_length s ≤ max_content_length))
unfolding new_message_content
new_message_content_iff s c = (λ h. ground arith, λ h. ground arith)

-- A database text is read as a direction exactly if it is the one that the direction is written as.
pub from_db_str_iff : (s : String) (d : Direction) → (from_db_str s ≡ ok d) ↔ (s ≡ as_db_str d)
unfolding from_db_str as_db_str
from_db_str_iff s sent = (λ h. ground (arith, eq_iff s "sent", eq_iff s "received"), λ h. rw h refl)
from_db_str_iff s received =
    (λ h. ground (arith, eq_iff s "sent", eq_iff s "received"), λ h. rw h refl)
