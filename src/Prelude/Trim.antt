-- ===== src/Prelude/Trim.antt =====
-- Laws of `str::trim`.
use Prim.Native.Nat.{◌≤◌}
use Prim.Native.Char.{Char}
use Prim.Native.String.{String, ◌++◌}
use text.Mathlib.TextLemmas.{cons-append}
use mathlib.Core.Path.{◌≡◌, refl, ap, ◌∙◌}
use mathlib.Core.Logic.{◌⊎◌, inl, inr}
use mathlib.Core.Bool.{false}
use native.Mathlib.Omega.{arith}
use family_com.Prelude.Tests.{Bool-cases}
use family_com.Prelude.Text.{is_whitespace, trim_start, trim_end, cons_trimmed, trim, byte_length}

trim_end-cons :
    (c : Char) (s : String)
    → is_whitespace c ≡ false
    → trim_end (String.◌∷◌ c s) ≡ String.◌∷◌ c (trim_end s)
unfolding trim_end
trim_end-cons c s h = ground arith

-- The result of `trim_start` is empty or begins with a character that is no whitespace.
trim_start_cases :
    (s : String)
    → (trim_start s ≡ String.[])
      ⊎ ((c : Char) × (r : String) × (trim_start s ≡ String.◌∷◌ c r) × (is_whitespace c ≡ false))
unfolding trim_start
trim_start_cases String.[] = inl refl
trim_start_cases (String.◌∷◌ c s) = elim (Bool-cases (is_whitespace c)) [
  | inl e ↦ rw e (trim_start_cases s)
  | inr e ↦ inr (c, s, rw e, e)
]

trim_end-cons_trimmed :
    (c : Char) (r : String) → trim_end r ≡ r → trim_end (cons_trimmed c r) ≡ cons_trimmed c r
unfolding trim_end
trim_end-cons_trimmed c String.[] h = elim (Bool-cases (is_whitespace c)) [
  | inl e ↦ rw (e, cons_trimmed) refl
  | inr e ↦ rw (e, cons_trimmed) (ground arith)
]
trim_end-cons_trimmed c (String.◌∷◌ d r) h = rw h

trim_end_step : (c : Char) (s : String) → trim_end (String.◌∷◌ c s) ≡ cons_trimmed c (trim_end s)
unfolding trim_end
trim_end_step c s = refl

trim_end_idem : (s : String) → trim_end (trim_end s) ≡ trim_end s
trim_end_idem String.[] = unfold trim_end in refl
trim_end_idem (String.◌∷◌ c s) =
    rw trim_end_step (trim_end-cons_trimmed c (trim_end s) (trim_end_idem s))

-- A text that begins with no whitespace is its own `trim_start`, trimmed at the end or not.
trim_start-trim_end :
    (c : Char) (r : String)
    → is_whitespace c ≡ false
    → trim_start (trim_end (String.◌∷◌ c r)) ≡ trim_end (String.◌∷◌ c r)
unfolding trim_start
trim_start-trim_end c r h = rw (trim_end-cons c r h) (ground arith)

-- Trimming once is enough.
pub trim_idem : (s : String) → trim (trim s) ≡ trim s
unfolding trim
trim_idem s = elim (trim_start_cases s) [
  | inl e ↦ rw e (unfold trim_end trim_start in refl)
  | inr (c, r, e, h) ↦
      rw e (ap trim_end (trim_start-trim_end c r h) ∙ trim_end_idem (String.◌∷◌ c r))
]

byte_length-trim_end-le : (s : String) → byte_length (trim_end s) ≤ byte_length s
unfolding trim_end byte_length
byte_length-trim_end-le String.[] = omega arith
byte_length-trim_end-le (String.◌∷◌ c s) = ground (arith, byte_length-trim_end-le s)

byte_length-trim_start-le : (s : String) → byte_length (trim_start s) ≤ byte_length s
unfolding trim_start byte_length
byte_length-trim_start-le String.[] = omega arith
byte_length-trim_start-le (String.◌∷◌ c s) = ground (arith, byte_length-trim_start-le s)

pub byte_length-trim-le : (s : String) → byte_length (trim s) ≤ byte_length s
unfolding trim
byte_length-trim-le s =
    omega (arith, byte_length-trim_start-le s, byte_length-trim_end-le (trim_start s))

trim_end-newline : (s : String) → trim_end (s ++ "\n") ≡ trim_end s
unfolding trim_end is_whitespace
trim_end-newline String.[] = refl
trim_end-newline (String.◌∷◌ c s) = rw cons-append (ap (cons_trimmed c) (trim_end-newline s))

-- A newline at the end is trimmed away.
pub trim-newline : (s : String) → trim (s ++ "\n") ≡ trim s
unfolding trim trim_start
trim-newline String.[] = unfold trim_end is_whitespace in refl
trim-newline (String.◌∷◌ c s) = elim (Bool-cases (is_whitespace c)) [
  | inl e ↦ rw (cons-append, e) (trim-newline s)
  | inr e ↦ rw (cons-append, e) (rw (← cons-append) (trim_end-newline (String.◌∷◌ c s)))
]
