-- ===== src/Prelude/Text.antt =====
-- Rust's `str` as the native texts: UTF-8 byte lengths and offsets, `trim`, splits at an offset.
-- A position counts bytes, and an offset inside a character is a panic there and `none` here.
use Prim.Native.Nat.{ℕ, zero, suc, ◌+◌, ◌-◌, ◌/◌, ◌%◌, ◌≤◌}
use Prim.Native.Char.{Char, code}
use mathlib.Core.List.{List, [], ◌∷◌}
use Prim.Native.String.{String, ◌++◌}
use mathlib.Core.Path.{◌≡◌}
use mathlib.Core.Bool.{Bool, true, false, ◌&&◌, ◌||◌}
use mathlib.Core.Option.{Option, none, some}
use mathlib.Core.Option
use native.Mathlib.Omega.{arith}
use text.Mathlib.TextLemmas.{nil-append, cons-append}
use family_com.Prelude.Tests.{ltb, leb, eqb, if◌then◌else◌}

-- `char::len_utf8`.
unfoldable pub len_utf8 : Char → ℕ
len_utf8 c =
    if ltb (code c) 0x80
    then 1
    else if ltb (code c) 0x800
    then 2
    else if ltb (code c) 0x10000
    then 3
    else 4

pub len_utf8_pos : (c : Char) → 1 ≤ len_utf8 c
unfolding len_utf8
len_utf8_pos c = ground arith

-- `str::len`.
unfoldable pub byte_length : String → ℕ
byte_length String.[] = 0
byte_length (String.◌∷◌ c s) = len_utf8 c + byte_length s

-- `str::is_empty`.
abbrev pub is_blank : String → Bool
is_blank String.[] = true
is_blank (String.◌∷◌ c s) = false

-- `char::is_whitespace`: the Unicode property White_Space.
unfoldable pub is_whitespace : Char → Bool
is_whitespace c =
    leb 9 (code c) && leb (code c) 13
    || (eqb (code c) 32
        || (eqb (code c) 0x85
            || (eqb (code c) 0xa0
                || (eqb (code c) 0x1680
                    || (leb 0x2000 (code c) && leb (code c) 0x200a
                        || (eqb (code c) 0x2028
                            || (eqb (code c) 0x2029
                                || (eqb (code c) 0x202f
                                    || (eqb (code c) 0x205f || eqb (code c) 0x3000)))))))))

-- `str::trim_start`.
unfoldable pub trim_start : String → String
trim_start String.[] = String.[]
trim_start (String.◌∷◌ c s) = if is_whitespace c then trim_start s else String.◌∷◌ c s

-- One character in front of a text that is trimmed at its end.
unfoldable pub cons_trimmed : Char → String → String
cons_trimmed c r = if is_blank r && is_whitespace c then String.[] else String.◌∷◌ c r

-- `str::trim_end`.
unfoldable pub trim_end : String → String
unfolding cons_trimmed
trim_end String.[] = String.[]
trim_end (String.◌∷◌ c s) = cons_trimmed c (trim_end s)

-- `str::trim`.
unfoldable pub trim : String → String
trim s = trim_end (trim_start s)

-- `(&s[..i], &s[i..])`, with `none` where the offset is past the end or inside a character.
unfoldable pub split_at? : String → ℕ → Option (String × String)
split_at? s zero = some (String.[], s)
split_at? String.[] (suc n) = none
split_at? (String.◌∷◌ c s) (suc n) =
    let rest =
      Option.map (λ (p : String × String). (String.◌∷◌ c p.0, p.1))
        (split_at? s (suc n - len_utf8 c)) in
    if ltb (suc n) (len_utf8 c) then none else rest

pub byte_length-append : (s t : String) → byte_length (s ++ t) ≡ byte_length s + byte_length t
unfolding byte_length
byte_length-append String.[] t = rw nil-append (omega arith)
byte_length-append (String.◌∷◌ c s) t = rw cons-append (omega (arith, byte_length-append s t))

-- `chars().count()`.
unfoldable pub char_count : String → ℕ
char_count String.[] = 0
char_count (String.◌∷◌ c s) = suc (char_count s)

-- A decimal digit.
digit : ℕ → String
digit n = elim (get_digit n ("0" ∷ "1" ∷ "2" ∷ "3" ∷ "4" ∷ "5" ∷ "6" ∷ "7" ∷ "8" ∷ "9" ∷ [])) [
  | none ↦ String.[]
  | some d ↦ d
]
  where
    get_digit : ℕ → List String → Option String
    get_digit n [] = none
    get_digit zero (d ∷ ds) = some d
    get_digit (suc n) (d ∷ ds) = get_digit n ds

decimal_from : ℕ → ℕ → String
unfolding digit
decimal_from zero n = digit n
decimal_from (suc f) n =
    let rest = decimal_from f (n / 10) ++ digit (n % 10) in if ltb n 10 then digit n else rest

-- `format!("{n}")` for an unsigned number: twenty digits are enough for 64 bits.
unfoldable pub decimal : ℕ → String
unfolding decimal_from
decimal n = decimal_from 20 n
