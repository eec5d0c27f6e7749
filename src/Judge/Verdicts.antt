-- ===== src/Judge/Verdicts.antt =====
-- Every verdict has a score of the unit interval and one of the three scopes.
use llmsentinel_router.Prelude.{
  ℕ, ◌≤◌, String, ◌==◌, ◌≡◌, refl, subst, Bool, true, false, not, ◌&&◌, Option, none, some, List,
  [], ◌∷◌, ◌⊎◌, inl, inr, if◌then◌else◌, arith, Bool-cases, ltb, length, some_injective, eq_iff,
}
use llmsentinel_router.Prelude.Float.{
  Float64, IsOrdered, ◌≼◌, IsFinite, le_of_not-lt, le_of_lt, add_nonneg, zero_num,
}
use llmsentinel_router.Prelude.Text.{Strings, contains}
use llmsentinel_router.Judge.Registry.{Verdict}
use llmsentinel_router.Judge.Rules.{
  Readers, complex_terms, known_scope, add_terms, rough_score, heuristic, clamp, verdict_of, parse,
}

-- A score of [0, 1] and a scope that the router knows.
pub record IsRated {F : Type 0} ⦃fl : Float64 F⦄ (v : Verdict F) : Type 0 where
  pub not_negative : fl.lit 0 ≼ v.complexity_score
  pub at_most_one : v.complexity_score ≼ fl.lit 10_000
  pub scope : (v.impact_scope ≡ "LOW") ⊎ ((v.impact_scope ≡ "MEDIUM") ⊎ (v.impact_scope ≡ "HIGH"))

module _ {F : Type 0} ⦃fl : Float64 F⦄ (o : IsOrdered F) where
  -- A finite number that is not negative.
  abbrev IsCount : F → Type 0
  IsCount x = IsFinite x × (fl.lit 0 ≼ x)

  IsCount-add : (x : F) (a : ℕ) → a ≤ 10_000_000 → IsCount x → IsCount (fl.add x (fl.lit a))
  IsCount-add x a small (fin, low) =
      (o.add_finite x a fin small, add_nonneg o x (fl.lit a) fin low (o.lit_mono 0 a (omega arith)))

  IsCount-add_if :
      (b : Bool) (x : F) (a : ℕ)
      → a ≤ 10_000_000
      → IsCount x
      → IsCount (if b then fl.add x (fl.lit a) else x)
  IsCount-add_if true x a small h = IsCount-add x a small h
  IsCount-add_if false x a small h = h

  IsCount-add_terms :
      (ts : List String) (lower : String) (x : F) → IsCount x → IsCount (add_terms ts lower x)
  unfolding add_terms
  IsCount-add_terms [] lower x h = h
  IsCount-add_terms (t ∷ ts) lower x h =
      IsCount-add_terms ts lower (if contains lower t then fl.add x (fl.lit 1_200) else x)
        (IsCount-add_if (contains lower t) x 1_200 (omega arith) h)

  IsCount-rough_score :
      (st : Strings) (rd : Readers F) (prompt : String) → IsCount (rough_score st rd prompt)
  unfolding rough_score
  IsCount-rough_score st rd prompt =
      let words = length (st.fields prompt) in
      IsCount-add_if (rd.high_impact prompt) _ 2_000 (omega arith) (
        IsCount-add_if (ltb 150 words) _ 2_500 (omega arith) (
          IsCount-add_if (ltb 50 words) _ 2_500 (omega arith) (
            IsCount-add_terms complex_terms (st.to_lower prompt) (fl.lit 1_000)
              (o.lit_finite 1_000 (omega arith), o.lit_mono 0 1_000 (omega arith)))))

  one_num : fl.lit 10_000 ≼ fl.lit 10_000
  one_num = o.refl_of_finite (fl.lit 10_000) (o.lit_finite 10_000 (omega arith))

  -- The heuristic rates every prompt: its score lies between 0 and 1, and its scope is one of the three.
  pub heuristic-IsRated :
      (st : Strings) (rd : Readers F) (prompt : String) → IsRated (heuristic st rd prompt)
  unfolding heuristic
  heuristic-IsRated st rd prompt =
      let c = IsCount-rough_score st rd prompt in
      let score = rough_score st rd prompt in
      let num : score ≼ score = o.refl_of_finite score c.0 in
      record {
        not_negative = elim (Bool-cases (fl.lt (fl.lit 10_000) score)) [
          | inl above ↦ rw above (o.lit_mono 0 10_000 (omega arith))
          | inr fine ↦ rw fine c.1
        ];
        at_most_one = elim (Bool-cases (fl.lt (fl.lit 10_000) score)) [
          | inl above ↦ rw above one_num
          | inr fine ↦ rw fine (le_of_not-lt o (fl.lit 10_000) score one_num num fine)
        ];
        scope = scope_cases (fl.le (fl.lit 7_000) score) (rd.high_impact prompt);
      }
    where
      scope_cases :
          (a high : Bool)
          → let s : String = if a && not high then "MEDIUM" else if high then "HIGH" else "LOW" in
            (s ≡ "LOW") ⊎ ((s ≡ "MEDIUM") ⊎ (s ≡ "HIGH"))
      scope_cases true true = inr (inr refl)
      scope_cases true false = inr (inl refl)
      scope_cases false true = inr (inr refl)
      scope_cases false false = inl refl

  known_scope-cases :
      (s : String)
      → (known_scope s ≡ "LOW") ⊎ ((known_scope s ≡ "MEDIUM") ⊎ (known_scope s ≡ "HIGH"))
  unfolding known_scope
  known_scope-cases s = elim (Bool-cases (s == "HIGH")) [
    | inl high ↦ inr (inr (ground (arith, high, eq_iff s "HIGH")))
    | inr x ↦ elim (Bool-cases (s == "MEDIUM")) [
      | inl medium ↦ inr (inl (ground (arith, x, medium, eq_iff s "MEDIUM")))
      | inr y ↦ inl (ground (arith, x, y, eq_iff s "LOW"))
    ]
  ]

  clamp_unit : (x : F) → x ≼ x → (fl.lit 0 ≼ clamp x) × (clamp x ≼ fl.lit 10_000)
  unfolding clamp
  clamp_unit x num = elim (Bool-cases (fl.lt x (fl.lit 10_000))) [
    | inl below ↦ elim (Bool-cases (fl.lt (fl.lit 0) x)) [
      | inl positive ↦
          rw (below, positive)
            (le_of_lt o (fl.lit 0) x positive, le_of_lt o x (fl.lit 10_000) below)
      | inr negative ↦ rw (below, negative) (zero_num o, o.lit_mono 0 10_000 (omega arith))
    ]
    | inr above ↦ elim (Bool-cases (fl.lt (fl.lit 0) (fl.lit 10_000))) [
      | inl p ↦ rw (above, p) (o.lit_mono 0 10_000 (omega arith), one_num)
      | inr p ↦ rw (above, p) (zero_num o, o.lit_mono 0 10_000 (omega arith))
    ]
  ]

  verdict_of-IsRated :
      (st : Strings) (raw : Option (F × String × String)) (v : Verdict F)
      → ((score : F) (scope reasoning : String)
          → raw ≡ some (score, scope, reasoning)
          → score ≼ score)
      → verdict_of st raw ≡ some v
      → IsRated v
  unfolding verdict_of
  verdict_of-IsRated st none v num h = absurd (ground arith)
  verdict_of-IsRated st (some (score, scope, reasoning)) v num h =
      subst IsRated (some_injective h) (record {
        not_negative = (clamp_unit score (num score scope reasoning refl)).0;
        at_most_one = (clamp_unit score (num score scope reasoning refl)).1;
        scope = known_scope-cases (st.to_upper scope);
      })

  -- Whatever number and texts a judge answers with, the verdict that is read from it has a score
  -- between 0 and 1 and one of the three scopes. JSON numbers are not NaN.
  pub parse-IsRated :
      (st : Strings) (rd : Readers F) (content : String) (v : Verdict F)
      → ((text : String) (score : F) (scope reasoning : String)
          → rd.unmarshal text ≡ some (score, scope, reasoning)
          → score ≼ score)
      → parse st rd content ≡ some v
      → IsRated v
  unfolding parse
  parse-IsRated st rd content v num h = verdict_of-IsRated st _ v (num _) h
