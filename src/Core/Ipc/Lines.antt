-- ===== src/Core/Ipc/Lines.antt =====
-- A line that was encoded is not empty, and is decoded to the value that it was encoded from.
use Prim.Native.String.{◌++◌}
use text.Mathlib.TextLemmas.{concat-ne-nil}
use family_com.Prelude.{
  ◌≡◌, refl, sym, ◌∙◌, String, false, ok, ok_inj, trim-newline, ◌==◌, eq_iff, Result-cases,
  Bool-cases, inl, inr, arith,
}
use family_com.Core.Ipc.{IpcJson, encode_line, decode_line}

module _ {A : Type 0} (codec : IpcJson A) (a : A) (line : String) where
  encode_line-eq-ok :
      encode_line codec a ≡ ok line
      → (text : String) × (codec.to_string a ≡ ok text) × (line ≡ text ++ "\n")
  unfolding encode_line
  encode_line-eq-ok h = elim (Result-cases (codec.to_string a)) [
    | inl (text, e) ↦ (text, e, ok_inj line (text ++ "\n") (sym h ∙ rw e refl))
    | inr (c, e) ↦ ground (arith, e)
  ]

  pub decode_line-encode_line :
      encode_line codec a ≡ ok line → (decode_line codec line ≡ ok a) × ((line == "") ≡ false)
  decode_line-encode_line h =
      let (text, e, l) = encode_line-eq-ok h in
      (
        unfold decode_line in
            rw (l, trim-newline text, codec.trimmed a text e, codec.read_back a text e) refl,
        elim (Bool-cases (line == "")) [
          | inl empty ↦ absurd (concat-ne-nil _ text (sym l ∙ (eq_iff line "").0 empty))
          | inr full ↦ full
        ],
      )
