-- ===== src/Exec.antt =====
-- Go functions that return `(value, error)` and change state: what was written before an error
-- stays written, so the state comes back beside the error too.
pub mod Preserves
use llmsentinel_router.Prelude.{◌≡◌, refl, ap, ◌⊎◌, inl, inr}

-- An error of the SQL driver: one whose text contains "constraint", or any other.
pub data DriverError : Type 0 where
  constraint other : DriverError

-- The `error` values that the modelled code creates or tells apart.
pub data Error : Type 0 where
  -- sql.ErrNoRows
  no_rows : Error
  database : DriverError → Error
  reservation_conflict adjustment_failed budget_exceeded : Error
  config_not_loaded no_active_models no_model : Error
  -- context.DeadlineExceeded, and every other error of a provider's call
  deadline_exceeded call_failed : Error
  -- of the model only: the fuel of a recursion ran out
  out_of_fuel : Error

pub data Result {ℓ} (A : Type ℓ) : Type ℓ where
  ok : A → Result A
  err : Error → Result A

pub result_cases {ℓ} :
    {A : Type ℓ} (r : Result A) → ((a : A) × (r ≡ ok a)) ⊎ ((e : Error) × (r ≡ err e))
result_cases (ok a) = inl (a, refl)
result_cases (err e) = inr (e, refl)

pub ok_injective {ℓ} : {A : Type ℓ} {a b : A} → ok a ≡ ok b → a ≡ b
ok_injective {a} h = ap (λ r. elim r [ ok x ↦ x | err e ↦ a ]) h

pub err_injective {ℓ} : {A : Type ℓ} {e x : Error} → ◌≡◌ {A = Result A} (err e) (err x) → e ≡ x
err_injective {A = A} {e = e} h = ap (λ (r : Result A). elim r [ ok a ↦ e | err y ↦ y ]) h

abbrev pub Exec {ℓ} : Type ℓ → Type ℓ → Type ℓ
Exec S A = S → Result A × S

module _ {ℓ} {S A : Type ℓ} where
  abbrev pub pure : A → Exec S A
  pure a s = (ok a, s)

  abbrev pub raise : Error → Exec S A
  raise e s = (err e, s)

module _ {ℓ} {S A B : Type ℓ} where
  abbrev pub proceed : Result A → (A → Exec S B) → Exec S B
  proceed (ok a) f s = f a s
  proceed (err e) f s = (err e, s)

  infixl 10 ◌>>=◌ ◌>>◌
  unfoldable pub ◌>>=◌ : Exec S A → (A → Exec S B) → Exec S B
  ◌>>=◌ m f s = let (r, s') = m s in proceed r f s'

  abbrev pub ◌>>◌ : Exec S A → Exec S B → Exec S B
  m >> n = m >>= λ _. n

-- A chain of steps that succeeds is a first step that succeeds and a rest that does.
module _ {ℓ} {S A B : Type ℓ} (m : Exec S A) (f : A → Exec S B) (s : S) {b : B} {s' : S} where
  succeeded :
      (r : Result A)
      → (m s).0 ≡ r
      → proceed r f (m s).1 ≡ (ok b, s')
      → (a : A) × (m s ≡ (ok a, (m s).1)) × (f a (m s).1 ≡ (ok b, s'))
  succeeded (ok a) e h = (a, ap (λ r. (r, (m s).1)) e, h)
  succeeded (err x) e h = absurd (cc (ap (λ p. p.0) h))

  pub >>=-eq-ok :
      (m >>= f) s ≡ (ok b, s') → (a : A) × (m s ≡ (ok a, (m s).1)) × (f a (m s).1 ≡ (ok b, s'))
  unfolding ◌>>=◌
  >>=-eq-ok h = succeeded (m s).0 refl h

module _ {ℓ} {S A B : Type ℓ} (m : Exec S A) (f : A → Exec S B) (s : S) where
  -- What a chain does after a first step that succeeds, or that fails.
  pub >>=-ok : {a : A} {s₁ : S} → m s ≡ (ok a, s₁) → (m >>= f) s ≡ f a s₁
  unfolding ◌>>=◌
  >>=-ok h = ap (λ p. proceed p.0 f p.1) h

  pub >>=-err : {e : Error} {s₁ : S} → m s ≡ (err e, s₁) → (m >>= f) s ≡ (err e, s₁)
  unfolding ◌>>=◌
  >>=-err h = ap (λ p. proceed p.0 f p.1) h
