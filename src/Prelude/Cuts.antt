-- ===== src/Prelude/Cuts.antt =====
-- Cutting a text at a byte offset.
use Prim.Native.Nat.{ℕ, zero, suc, ◌+◌, ◌-◌}
use Prim.Native.Char.{Char}
use Prim.Native.String.{String, ◌++◌}
use text.Mathlib.TextLemmas.{nil-append, cons-append}
use mathlib.Core.Path.{◌≡◌, refl}
use mathlib.Core.Bool.{false}
use mathlib.Core.Option
use mathlib.Core.Option.{some}
use native.Mathlib.Omega.{arith}
use family_com.Prelude.Tests.{ltb}
use family_com.Prelude.Text.{byte_length, len_utf8, len_utf8_pos, split_at?}

split_at?-cons :
    (c : Char) (s : String) (n m : ℕ)
    → n ≡ len_utf8 c + m
    → split_at? (String.◌∷◌ c s) n
      ≡ Option.map (λ (p : String × String). (String.◌∷◌ c p.0, p.1)) (split_at? s m)
unfolding split_at?
split_at?-cons c s zero m e = absurd (omega (arith, e, len_utf8_pos c))
split_at?-cons c s (suc n) m e =
    let small : ltb (suc n) (len_utf8 c) ≡ false = ground arith in
    let rest : suc n - len_utf8 c ≡ m = omega arith in rw (small, rest) refl

-- A text is cut where it was joined.
pub split_at?-append : (a b : String) → split_at? (a ++ b) (byte_length a) ≡ some (a, b)
unfolding byte_length
split_at?-append String.[] b = unfold split_at? in rw nil-append refl
split_at?-append (String.◌∷◌ c s) b =
    rw
      (
        cons-append c s b,
        split_at?-cons c (s ++ b) (len_utf8 c + byte_length s) (byte_length s) refl,
        split_at?-append s b,
      )
      refl
