-- ===== src/Daemon/Notifications/Preview.antt =====
-- The preview of a message in a notification.
use Prim.Native.String.{◌++◌}
use text.Mathlib.TextLemmas.{nil-append, cons-append}
use family_com.Prelude.{
  ℕ, ◌+◌, ◌-◌, ◌≤◌, ◌<◌, ◌≡◌, refl, sym, ap, ◌∙◌, ◌⊎◌, inl, inr, String, true, some, arith, ltb,
  byte_length, byte_length-append, len_utf8, split_at?, split_at?-append, Char, Bool-cases,
  if◌then◌else◌,
}
use family_com.Daemon.Notifications.{floor_char_boundary, truncate_preview}

len_utf8_le : (c : Char) → len_utf8 c ≤ 4
unfolding len_utf8
len_utf8_le c = ground arith

-- The longest start of a text that has at most so many bytes, in whole characters.
unfoldable pub start_of : String → ℕ → String
start_of String.[] n = String.[]
start_of (String.◌∷◌ c s) n =
    let rest = start_of s (n - len_utf8 c) in
    if ltb n (len_utf8 c) then String.[] else String.◌∷◌ c rest

-- A text as it stands in a notification: whole, or its start and dots.
abbrev pub shortened : String → String
shortened text = if ltb 100 (byte_length text) then start_of text 97 ++ "..." else text

-- A text is cut at the last boundary that is not past the offset: less than four bytes before it,
-- unless the text ends earlier.
floor_char_boundary_lem :
    (s : String) (n : ℕ)
    → (a : String) × (b : String) × (s ≡ a ++ b)
      × (a ≡ start_of s n)
      × (floor_char_boundary s n ≡ byte_length a)
      × (byte_length a ≤ n)
      × ((b ≡ String.[]) ⊎ (n < byte_length a + 4))
unfolding floor_char_boundary byte_length start_of
floor_char_boundary_lem String.[] n =
    (String.[], String.[], sym (nil-append String.[]), refl, refl, omega arith, inl refl)
floor_char_boundary_lem (String.◌∷◌ c s) n = elim (Bool-cases (ltb n (len_utf8 c))) [
  | inl e ↦ (
    String.[],
    String.◌∷◌ c s,
    sym (nil-append (String.◌∷◌ c s)),
    rw (e, start_of) refl,
    rw (e, floor_char_boundary) refl,
    omega arith,
    inr (ground (arith, len_utf8_le c)),
  )
  | inr e ↦
      let (a, b, joined, start, floor, within, near) = floor_char_boundary_lem s (n - len_utf8 c) in
      (
        String.◌∷◌ c a,
        b,
        ap (String.◌∷◌ c) joined ∙ sym (cons-append c a b),
        rw (e, start_of) (ap (String.◌∷◌ c) start),
        rw (e, floor_char_boundary) (ap (λ k. len_utf8 c + k) floor),
        ground arith,
        ground (arith, near),
      )
]

-- The preview in a notification is the text shortened; it has at most 100 bytes: a message of that length is shown whole, and of
-- a longer one a start of at least 94 bytes, which ends between two characters, and three dots.
pub truncate_preview_lem :
    (preview : String)
    → (body : String) × (truncate_preview preview ≡ some body)
      × (body ≡ shortened preview)
      × (byte_length body ≤ 100)
      × ((body ≡ preview)
          ⊎ ((a : String) × (b : String) × (preview ≡ a ++ b)
              × (body ≡ a ++ "...")
              × (94 ≤ byte_length a)))
truncate_preview_lem preview = elim (Bool-cases (ltb 100 (byte_length preview))) [
  | inr e ↦ (preview, unfold truncate_preview in rw e refl, rw e refl, ground arith, inl refl)
  | inl e ↦
      let (a, b, joined, start, floor, within, near) = floor_char_boundary_lem preview 97 in
      let cut : split_at? preview (floor_char_boundary preview 97) ≡ some (a, b) =
        ap (split_at? preview) floor
        ∙ ap (λ s. split_at? s (byte_length a)) joined
        ∙ split_at?-append a b in
      (
        a ++ "...",
        unfold truncate_preview in rw (e, cut) refl,
        rw e (ap (λ t. t ++ "...") start),
        omega (arith, byte_length-append a "...", dots, within),
        inr (a, b, joined, refl, long preview a b e joined near),
      )
]
  where
    dots : byte_length "..." ≡ 3
    dots = unfold byte_length len_utf8 in refl

    long :
        (preview a b : String)
        → ltb 100 (byte_length preview) ≡ true
        → preview ≡ a ++ b
        → (b ≡ String.[]) ⊎ (97 < byte_length a + 4)
        → 94 ≤ byte_length a
    long preview a b e joined (inl empty) =
        let whole : byte_length preview ≡ byte_length a + byte_length b =
          ap byte_length joined ∙ byte_length-append a b in
        let none_left : byte_length b ≡ 0 = rw empty (unfold byte_length in refl) in ground arith
    long preview a b e joined (inr near) = omega arith
