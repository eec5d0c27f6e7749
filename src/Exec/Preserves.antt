-- ===== src/Exec/Preserves.antt =====
-- Steps that leave a part of the state as it is, whether they succeed or fail.
use llmsentinel_router.Prelude.{◌≡◌, refl, ◌∙◌, Bool, true, false, if◌then◌else◌}
use llmsentinel_router.Exec.{Error, Result, ok, err, Exec, pure, raise, proceed, ◌>>=◌}

pub record Preserves {S X A : Type 0} (part : S → X) (m : Exec S A) : Type 0 where
  pub at : (s : S) → part (m s).1 ≡ part s

module _ {S X A B : Type 0} (part : S → X) where
  proceed-Preserves :
      (r : Result A) (f : A → Exec S B) (s : S)
      → ((a : A) → Preserves part (f a))
      → part (proceed r f s).1 ≡ part s
  proceed-Preserves (ok a) f s h = (h a).at s
  proceed-Preserves (err e) f s h = refl

  pub Preserves-bind :
      (m : Exec S A) (f : A → Exec S B)
      → Preserves part m
      → ((a : A) → Preserves part (f a))
      → Preserves part (m >>= f)
  unfolding ◌>>=◌
  Preserves-bind m f k h = record { at = λ s. proceed-Preserves (m s).0 f (m s).1 h ∙ k.at s }

module _ {S X A : Type 0} (part : S → X) where
  pub Preserves-pure : (a : A) → Preserves part (pure a)
  Preserves-pure a = record { at = λ s. refl }

  pub Preserves-raise : (e : Error) → Preserves {A = A} part (raise e)
  Preserves-raise e = record { at = λ s. refl }

  pub Preserves-if :
      {m n : Exec S A} (b : Bool)
      → Preserves part m
      → Preserves part n
      → Preserves part (if b then m else n)
  Preserves-if true h k = h
  Preserves-if false h k = k

-- The same of a choice between two outcomes, or between two states.
module _ {S X : Type 0} (part : S → X) where
  pub part_if :
      (b : Bool) (x y : S) {z : X} → part x ≡ z → part y ≡ z → part (if b then x else y) ≡ z
  part_if true x y h k = h
  part_if false x y h k = k

  pub part_if_outcome :
      {A : Type 0} (b : Bool) (x y : A × S) {z : X}
      → part x.1 ≡ z
      → part y.1 ≡ z
      → part (if b then x else y).1 ≡ z
  part_if_outcome true x y h k = h
  part_if_outcome false x y h k = k
