-- ===== src/Prelude/Members.antt =====
-- Boolean tests of all entries of a list, and membership under `keep`, `take` and permutations.
use Prim.Native.Nat.{ℕ, zero, suc}
use mathlib.Core.Path.{◌≡◌, refl, ap, ap₂, ◌∙◌}
use mathlib.Core.Logic.{inl, inr, ∥∥₁_elim, ∥∥₁_prop}
use mathlib.Core.Logic.Or
use mathlib.Core.Bool.{Bool, true, ◌&&◌, ◌||◌, Bool-set}
use mathlib.Core.List.{
  List, [], ◌∷◌, Mem, Perm, Permᴰ, not-mem-nil, mem-cons, mem-cons_of_mem, mem-cons_self,
}
use native.Mathlib.Omega.{arith}
use native.Mathlib.Nat.{ℕ_set}
use family_com.Prelude.Tests.{Bool-cases}
use family_com.Prelude.Lists.{keep, take, length, any}

module _ {ℓ} {A : Type ℓ} where
  -- `Iterator::all`.
  unfoldable pub all : (A → Bool) → List A → Bool
  all p [] = true
  all p (x ∷ xs) = p x && all p xs

  all-permᴰ : (p : A → Bool) {xs ys : List A} → Permᴰ xs ys → all p xs ≡ all p ys
  unfolding all
  all-permᴰ p Permᴰ.nil = refl
  all-permᴰ p (Permᴰ.cons e d) = ap₂ (λ a b. p a && b) e (all-permᴰ p d)
  all-permᴰ p (Permᴰ.swap {a = a} {b = b} e f) = rw (← e, ← f) (ground arith)
  all-permᴰ p (Permᴰ.trans d e) = all-permᴰ p d ∙ all-permᴰ p e

  pub all-perm : (p : A → Bool) {xs ys : List A} → Perm xs ys → all p xs ≡ all p ys
  all-perm p h = ∥∥₁_elim h (Bool-set _ _) (all-permᴰ p)

  any-permᴰ : (p : A → Bool) {xs ys : List A} → Permᴰ xs ys → any p xs ≡ any p ys
  unfolding any
  any-permᴰ p Permᴰ.nil = refl
  any-permᴰ p (Permᴰ.cons e d) = ap₂ (λ a b. p a || b) e (any-permᴰ p d)
  any-permᴰ p (Permᴰ.swap {a = a} {b = b} e f) = rw (← e, ← f) (ground arith)
  any-permᴰ p (Permᴰ.trans d e) = any-permᴰ p d ∙ any-permᴰ p e

  pub any-perm : (p : A → Bool) {xs ys : List A} → Perm xs ys → any p xs ≡ any p ys
  any-perm p h = ∥∥₁_elim h (Bool-set _ _) (any-permᴰ p)

  length-permᴰ : {xs ys : List A} → Permᴰ xs ys → length xs ≡ length ys
  length-permᴰ Permᴰ.nil = refl
  length-permᴰ (Permᴰ.cons e d) = ap suc (length-permᴰ d)
  length-permᴰ (Permᴰ.swap e f) = refl
  length-permᴰ (Permᴰ.trans d e) = length-permᴰ d ∙ length-permᴰ e

  pub length-perm : {xs ys : List A} → Perm xs ys → length xs ≡ length ys
  length-perm h = ∥∥₁_elim h (ℕ_set _ _) length-permᴰ

  pub all_of_mem : (p : A → Bool) (xs : List A) {x : A} → all p xs ≡ true → Mem x xs → p x ≡ true
  unfolding all
  all_of_mem p [] h m = absurd (not-mem-nil m)
  all_of_mem p (y ∷ ys) h m =
      Or.elim (Bool-set _ _) (mem-cons.0 m) (λ e. rw e (ground arith))
        (all_of_mem p ys (ground arith))

  pub all-keep : (p q : A → Bool) (xs : List A) → all p xs ≡ true → all p (keep q xs) ≡ true
  unfolding all keep
  all-keep p q [] h = refl
  all-keep p q (x ∷ xs) h = ground (arith, all-keep p q xs)

  -- What is kept passes the test.
  pub all-keep_self : (p : A → Bool) (xs : List A) → all p (keep p xs) ≡ true
  unfolding all keep
  all-keep_self p [] = refl
  all-keep_self p (x ∷ xs) = ground (arith, all-keep_self p xs)

  pub all-take : (p : A → Bool) (n : ℕ) (xs : List A) → all p xs ≡ true → all p (take n xs) ≡ true
  unfolding all take
  all-take p zero xs h = refl
  all-take p (suc n) [] h = refl
  all-take p (suc n) (x ∷ xs) h = ground (arith, all-take p n xs)

  pub mem-keep : (p : A → Bool) (xs : List A) {x : A} → p x ≡ true → Mem x xs → Mem x (keep p xs)
  unfolding keep
  mem-keep p [] h m = absurd (not-mem-nil m)
  mem-keep p (y ∷ ys) {x} h m =
      Or.elim ∥∥₁_prop (mem-cons.0 m) (λ e. rw (← e, h) mem-cons_self)
        (λ t. elim (Bool-cases (p y)) [
          | inl e ↦ rw e (mem-cons_of_mem y (mem-keep p ys h t))
          | inr e ↦ rw e (mem-keep p ys h t)
        ])
