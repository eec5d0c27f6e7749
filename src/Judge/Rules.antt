-- ===== src/Judge/Rules.antt =====
-- internal/judge/judge.go: the rules on a prompt's text where no judge answers, and the reading of a
-- judge's answer. `regexp` and JSON decoding are parameters.
use Prim.Native.String.{slice}
use text.Mathlib.Text.{find?}
use llmsentinel_router.Prelude.{
  ℕ, ◌+◌, String, ◌==◌, Bool, not, ◌&&◌, Option, none, some, List, [], ◌∷◌, if◌then◌else◌, ltb,
  length,
}
use llmsentinel_router.Prelude.Float.{Float64}
use llmsentinel_router.Prelude.Text.{Strings, contains}
use llmsentinel_router.Judge.Registry.{Verdict}

-- The expression of words with high impact, and json.Unmarshal into the three fields.
pub record Readers (F : Type 0) : Type 0 where
  pub high_impact : String → Bool
  pub unmarshal : String → Option (F × String × String)

abbrev pub complex_terms : List String
complex_terms =
    "architecture" ∷ "debug" ∷ "security" ∷ "migration" ∷ "database" ∷ "distributed" ∷ "optimize"
    ∷ "production" ∷ "refactor" ∷ "analyze" ∷ []

-- content[start : end+1], where both braces are found in this order.
unfoldable pub between : String → Option ℕ → Option ℕ → String
between content none stop = content
between content (some start) none = content
between content (some start) (some stop) =
    if ltb start stop then slice content start (stop + 1) else content

unfoldable pub known_scope : String → String
known_scope scope =
    if not (scope == "LOW") && not (scope == "MEDIUM") && not (scope == "HIGH")
    then "LOW"
    else scope

module _ {F : Type 0} ⦃fl : Float64 F⦄ where
  unfoldable pub add_terms : List String → String → F → F
  add_terms [] lower score = score
  add_terms (t ∷ ts) lower score =
      add_terms ts lower (if contains lower t then fl.add score (fl.lit 1_200) else score)

  -- The score before the last bound, with the words counted.
  unfoldable pub rough_score : Strings → Readers F → String → F
  unfolding add_terms
  rough_score st rd prompt =
      let words = length (st.fields prompt) in
      let terms = add_terms complex_terms (st.to_lower prompt) (fl.lit 1_000) in
      let long = if ltb 50 words then fl.add terms (fl.lit 2_500) else terms in
      let longer = if ltb 150 words then fl.add long (fl.lit 2_500) else long in
      if rd.high_impact prompt then fl.add longer (fl.lit 2_000) else longer

  unfoldable pub heuristic : Strings → Readers F → String → Verdict F
  unfolding rough_score
  heuristic st rd prompt =
      let score = rough_score st rd prompt in
      let high = rd.high_impact prompt in
      let medium = fl.le (fl.lit 7_000) score && not high in
      record {
        complexity_score = if fl.lt (fl.lit 10_000) score then fl.lit 10_000 else score;
        impact_scope = if medium then "MEDIUM" else if high then "HIGH" else "LOW";
        reasoning =
            if medium
            then "Complex prompt by heuristic."
            else if high
            then "High-impact keyword detected."
            else "Simple prompt by heuristic.";
        judge_id = "";
      }

  -- math.Max(0, math.Min(1, x)) of a number; JSON has no NaN.
  unfoldable pub clamp : F → F
  clamp x =
      let low = if fl.lt x (fl.lit 10_000) then x else fl.lit 10_000 in
      if fl.lt (fl.lit 0) low then low else fl.lit 0

  unfoldable pub verdict_of : Strings → Option (F × String × String) → Option (Verdict F)
  unfolding clamp known_scope
  verdict_of st none = none
  verdict_of st (some (score, scope, reasoning)) = some (record {
    complexity_score = clamp score;
    impact_scope = known_scope (st.to_upper scope);
    reasoning = if reasoning == "" then "No reasoning supplied." else reasoning;
    judge_id = "";
  })

  unfoldable pub parse : Strings → Readers F → String → Option (Verdict F)
  unfolding between verdict_of
  parse st rd content =
      let bare = st.trim (st.trim_space content) "`" in
      verdict_of st (rd.unmarshal (between bare (find? bare "{") (st.last_index bare "}")))
