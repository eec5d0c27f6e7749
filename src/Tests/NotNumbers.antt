-- ===== src/Tests/NotNumbers.antt =====
-- A float with NaN (`none`), and a session whose limit is NaN (internal/storage/storage.go).
use llmsentinel_router.Prelude.{◌≡◌, refl, Bool, true, false, Option, none, some, []}
use llmsentinel_router.Prelude.Int.{ℤ, pos}
use llmsentinel_router.Prelude.Float.{Float64}
use llmsentinel_router.Prelude.Fixed.{fixed}
use llmsentinel_router.Prelude.Map.{lookup}
use llmsentinel_router.Exec.{out_of_fuel, err}
use llmsentinel_router.Storage.Sessions.{new_session, create_on}
use llmsentinel_router.Storage.Creation.{mk, create_on-endless}

abbrev both : (ℤ → ℤ → ℤ) → Option ℤ → Option ℤ → Option ℤ
both f none y = none
both f (some a) none = none
both f (some a) (some b) = some (f a b)

abbrev holds : (ℤ → ℤ → Bool) → Option ℤ → Option ℤ → Bool
holds p none y = false
holds p (some a) none = false
holds p (some a) (some b) = p a b

instance abbrev with_nan : Float64 (Option ℤ)
with_nan = record {
  lit = λ n. some (fixed.lit n);
  of_int = λ i. some (fixed.of_int i);
  trunc = λ x. elim x [ none ↦ pos 0 | some a ↦ fixed.trunc a ];
  add = both fixed.add;
  sub = both fixed.sub;
  mul = both fixed.mul;
  div = both fixed.div;
  abs = λ x. elim x [ none ↦ none | some a ↦ some (fixed.abs a) ];
  lt = holds fixed.lt;
  le = holds fixed.le;
  eq = holds fixed.eq;
  is_finite = λ x. elim x [ none ↦ false | some a ↦ true ];
}

create_on-endless_example :
    create_on {F = Option ℤ} 100 (new_session "c" "" "" none 9) (mk [] [])
    ≡ (err out_of_fuel, mk [] [])
unfolding lookup
create_on-endless_example = create_on-endless 100 "c" "" "" none 9 [] refl refl
