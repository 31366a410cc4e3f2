-- ===== src/Tests/Engines.antt =====
-- An engine that sorts by insertion, and codecs for a few values: instances of the interfaces.
use Prim.Native.Char.{char}
use mathlib.Core.List.{Perm}
use mathlib.Core.List.Perm
use family_com.Prelude.{
  ℤ, ◌≡◌, refl, ap, ◌∙◌, String, Char, code, List, [], ◌∷◌, ok, All, ◌≤ℤ◌, ≤ℤ_trans, inl, inr, eqb,
  if◌then◌else◌, ltb_ℤ, ltb_ℤ-true, ltb_ℤ-false, Bool-cases, false, is_blank, is_whitespace,
  cons_trimmed, trim_start, trim_end, trim, arith,
}
use family_com.Core.Db.Engine.{MessageRow, IsNewestFirst, Sqlite, Json}

unfoldable pub insert_row : MessageRow → List MessageRow → List MessageRow
insert_row m [] = m ∷ []
insert_row m (n ∷ ms) = if ltb_ℤ m.timestamp n.timestamp then n ∷ insert_row m ms else m ∷ n ∷ ms

unfoldable pub sort_rows : List MessageRow → List MessageRow
sort_rows [] = []
sort_rows (m ∷ ms) = insert_row m (sort_rows ms)

insert_row-perm : (m : MessageRow) (ms : List MessageRow) → Perm (insert_row m ms) (m ∷ ms)
unfolding insert_row
insert_row-perm m [] = Perm.refl _
insert_row-perm m (n ∷ ms) = elim (Bool-cases (ltb_ℤ m.timestamp n.timestamp)) [
  | inl e ↦ rw e (Perm.trans (Perm.cons n (insert_row-perm m ms)) (Perm.swap m n ms))
  | inr e ↦ rw e (Perm.refl _)
]

pub sort_rows-perm : (ms : List MessageRow) → Perm (sort_rows ms) ms
unfolding sort_rows
sort_rows-perm [] = Perm.refl _
sort_rows-perm (m ∷ ms) =
    Perm.trans (insert_row-perm m (sort_rows ms)) (Perm.cons m (sort_rows-perm ms))

All-insert_row :
    (P : MessageRow → Type 0) (m : MessageRow) (ms : List MessageRow)
    → P m
    → All P ms
    → All P (insert_row m ms)
unfolding insert_row
All-insert_row P m [] p ps = (p, tt)
All-insert_row P m (n ∷ ms) p ps = elim (Bool-cases (ltb_ℤ m.timestamp n.timestamp)) [
  | inl e ↦ rw e (ps.0, All-insert_row P m ms p ps.1)
  | inr e ↦ rw e (p, ps)
]

All-older :
    (a b : ℤ) (ms : List MessageRow)
    → b ≤ℤ a
    → All (λ (n : MessageRow). n.timestamp ≤ℤ b) ms
    → All (λ (n : MessageRow). n.timestamp ≤ℤ a) ms
All-older a b [] h ps = tt
All-older a b (n ∷ ms) h ps = (≤ℤ_trans n.timestamp b a ps.0 h, All-older a b ms h ps.1)

insert_row-IsNewestFirst :
    (m : MessageRow) (ms : List MessageRow) → IsNewestFirst ms → IsNewestFirst (insert_row m ms)
unfolding insert_row
insert_row-IsNewestFirst m [] s = (tt, tt)
insert_row-IsNewestFirst m (n ∷ ms) s = elim (Bool-cases (ltb_ℤ m.timestamp n.timestamp)) [
  | inl e ↦ rw e (
    All-insert_row (λ (r : MessageRow). r.timestamp ≤ℤ n.timestamp) m ms
        (ltb_ℤ-true m.timestamp n.timestamp e) s.0,
    insert_row-IsNewestFirst m ms s.1,
  )
  | inr e ↦
      let older : n.timestamp ≤ℤ m.timestamp = ltb_ℤ-false m.timestamp n.timestamp e in
      rw e ((older, All-older m.timestamp n.timestamp ms older s.0), s)
]

pub sort_rows-IsNewestFirst : (ms : List MessageRow) → IsNewestFirst (sort_rows ms)
unfolding sort_rows
sort_rows-IsNewestFirst [] = tt
sort_rows-IsNewestFirst (m ∷ ms) =
    insert_row-IsNewestFirst m (sort_rows ms) (sort_rows-IsNewestFirst ms)

abbrev pub sqlite : Sqlite
sqlite = record {
  by_time = sort_rows;
  by_time-perm = sort_rows-perm;
  by_time-IsNewestFirst = sort_rows-IsNewestFirst;
  by_name = λ ps. ps;
  by_name-perm = λ ps. Perm.refl ps;
  unique_failed = "UNIQUE constraint failed";
  foreign_key_failed = "FOREIGN KEY constraint failed";
}

-- Each character of a text follows a quote, and its end is a semicolon.
escape : String → String → String
escape String.[] rest = String.◌∷◌ (char 59 tt) rest
escape (String.◌∷◌ c s) rest = String.◌∷◌ (char 39 tt) (String.◌∷◌ c (escape s rest))

unfoldable pub write_texts : List String → String
unfolding escape
write_texts [] = String.[]
write_texts (x ∷ xs) = escape x (write_texts xs)

add_char : Char → List String → List String
add_char c [] = []
add_char c (x ∷ xs) = String.◌∷◌ c x ∷ xs

unfoldable pub read_texts : String → List String
unfolding add_char
read_texts String.[] = []
read_texts (String.◌∷◌ m String.[]) = String.[] ∷ []
read_texts (String.◌∷◌ m (String.◌∷◌ c s)) =
    if eqb (code m) 59 then String.[] ∷ read_texts (String.◌∷◌ c s) else add_char c (read_texts s)

read_texts-end : (s : String) → read_texts (String.◌∷◌ (char 59 tt) s) ≡ String.[] ∷ read_texts s
unfolding read_texts
read_texts-end String.[] = refl
read_texts-end (String.◌∷◌ c s) = refl

read_texts-char :
    (c : Char) (s : String)
    → read_texts (String.◌∷◌ (char 39 tt) (String.◌∷◌ c s)) ≡ add_char c (read_texts s)
unfolding read_texts
read_texts-char c s = refl

cons_char : (c : Char) (x : String) (xs : List String) → add_char c (x ∷ xs) ≡ String.◌∷◌ c x ∷ xs
unfolding add_char
cons_char c x xs = refl

read_texts-escape : (x : String) (rest : String) → read_texts (escape x rest) ≡ x ∷ read_texts rest
unfolding escape
read_texts-escape String.[] rest = read_texts-end rest
read_texts-escape (String.◌∷◌ c s) rest =
    read_texts-char c (escape s rest)
    ∙ ap (add_char c) (read_texts-escape s rest)
    ∙ cons_char c s (read_texts rest)

pub read_texts-write_texts : (xs : List String) → read_texts (write_texts xs) ≡ xs
unfolding write_texts
read_texts-write_texts [] = unfold read_texts in refl
read_texts-write_texts (x ∷ xs) =
    read_texts-escape x (write_texts xs) ∙ ap (◌∷◌ x) (read_texts-write_texts xs)

is_blank-escape : (x rest : String) → is_blank (escape x rest) ≡ false
unfolding escape
is_blank-escape String.[] rest = refl
is_blank-escape (String.◌∷◌ c s) rest = refl

trim_end-escape :
    (x rest : String) → trim_end rest ≡ rest → trim_end (escape x rest) ≡ escape x rest
unfolding escape trim_end cons_trimmed is_whitespace
trim_end-escape String.[] rest h = rw h (ground arith)
trim_end-escape (String.◌∷◌ c s) rest h =
    rw (trim_end-escape s rest h) (rw (is_blank-escape s rest) refl)

trim_end-write_texts : (xs : List String) → trim_end (write_texts xs) ≡ write_texts xs
unfolding write_texts
trim_end-write_texts [] = unfold trim_end in refl
trim_end-write_texts (x ∷ xs) = trim_end-escape x (write_texts xs) (trim_end-write_texts xs)

trim_start-escape : (x rest : String) → trim_start (escape x rest) ≡ escape x rest
unfolding escape trim_start is_whitespace
trim_start-escape String.[] rest = refl
trim_start-escape (String.◌∷◌ c s) rest = refl

-- The form has no whitespace at its ends.
pub trim-write_texts : (xs : List String) → trim (write_texts xs) ≡ write_texts xs
unfolding trim write_texts
trim-write_texts [] = unfold trim_start trim_end in refl
trim-write_texts (x ∷ xs) =
    ap trim_end (trim_start-escape x (write_texts xs))
    ∙ trim_end-escape x (write_texts xs) (trim_end-write_texts xs)

abbrev pub json : Json
json = record {
  to_string = λ xs. ok (write_texts xs);
  from_str = λ s. ok (read_texts s);
  written = λ xs. (write_texts xs, refl, ap (λ ys. ok ys) (read_texts-write_texts xs));
}
