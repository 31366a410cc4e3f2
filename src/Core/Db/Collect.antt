-- ===== src/Core/Db/Collect.antt =====
-- `collect` of fallible readings: which entries its result has.
use mathlib.Core.List.{Mem, mem-cons, mem-cons_self, mem-cons_of_mem, not-mem-nil}
use mathlib.Core.Logic.Or
use mathlib.Core.Logic.{∥∥₁_prop}
use family_com.Prelude.{◌≡◌, refl, ap, ◌∙◌, sym, List, [], ◌∷◌, Result, ok, err, ok_inj, arith}
use family_com.Core.Db.{collect}

module _ {ℓ κ μ} {A : Type ℓ} {B : Type κ} {E : Type μ} (f : A → Result B E) where
  -- A list that is read has a reading of its head and of its tail.
  pub collect-cons :
      (x : A) (xs : List A) (ys : List B)
      → collect f (x ∷ xs) ≡ ok ys
      → (z : B) × (zs : List B) × (f x ≡ ok z) × (collect f xs ≡ ok zs) × (ys ≡ z ∷ zs)
  unfolding collect
  collect-cons x xs ys h = go (f x) (collect f xs) refl refl
    where
      go :
          (r : Result B E) (s : Result (List B) E)
          → f x ≡ r
          → collect f xs ≡ s
          → (z : B) × (zs : List B) × (f x ≡ ok z) × (collect f xs ≡ ok zs) × (ys ≡ z ∷ zs)
      go (ok z) (ok zs) e g = (z, zs, e, g, ground arith)
      go (ok z) (err x) e g = ground arith
      go (err x) s e g = ground arith

  pub mem-collect :
      (xs : List A) (ys : List B) (x : A) (y : B)
      → collect f xs ≡ ok ys
      → f x ≡ ok y
      → Mem x xs
      → Mem y ys
  mem-collect [] ys x y h e m = absurd (not-mem-nil m)
  mem-collect (x' ∷ xs) ys x y h e m =
      let (z, zs, g, k, q) = collect-cons x' xs ys h in
      rw q (
        Or.elim ∥∥₁_prop (mem-cons.0 m)
          (λ i. let j : y ≡ z = ok_inj y z (sym e ∙ ap f i ∙ g) in rw j mem-cons_self)
          (λ i. mem-cons_of_mem z (mem-collect xs zs x y k e i)))
