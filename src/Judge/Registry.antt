-- ===== src/Judge/Registry.antt =====
-- internal/judge/registry.go and judge.go: the choice of a judge, with failover to the heuristic. The
-- provider's call with the parse of its answer is `Judges.call`, and the heuristic on the prompt is
-- `Judges.heuristic`: Judge/Rules has both.
use llmsentinel_router.Prelude.{
  ℕ, suc, String, not, Option, none, some, List, [], ◌∷◌, if◌then◌else◌,
}
use llmsentinel_router.Prelude.Int.{ℤ, pos, leb_ℤ}
use llmsentinel_router.Prelude.Float.{Float64}
use llmsentinel_router.Prelude.Map.{lookup}
use llmsentinel_router.Config.{ModelDefinition, SentinelConfig, instances_of, usable_key}
use llmsentinel_router.Judge.Health.{HealthTracker, is_available, record_success, record_failure}

-- Without the latency, which the router measures.
pub record Verdict (F : Type 0) : Type 0 where
  pub complexity_score : F
  pub impact_scope : String
  pub reasoning : String
  pub judge_id : String

-- `call n model key`: the answer to the call number `n`, or `none` for an error. `fallback attempts`
-- is the reasoning of the heuristic after that many attempts.
pub record Judges (F : Type 0) : Type 0 where
  pub call : ℕ → String → String → Option (Verdict F)
  pub heuristic : Verdict F
  pub fallback : ℕ → String

-- NewRegistry's bound on the attempts.
unfoldable pub attempts_or_default : ℤ → ℤ
attempts_or_default n = if leb_ℤ n (pos 0) then pos 3 else n

module _ {F : Type 0} where
  unfoldable pub complexity_to_route : ⦃fl : Float64 F⦄ → F → F → String
  complexity_to_route ⦃fl⦄ score threshold = if fl.le threshold score then "strong" else "weak"

  unfoldable pub first_usable : SentinelConfig F → List String → Option String
  unfolding usable_key
  first_usable cfg [] = none
  first_usable cfg (id ∷ ids) = elim (usable_key cfg id) [
    | none ↦ first_usable cfg ids
    | some k ↦ some k.1
  ]

  unfoldable pub first_key : SentinelConfig F → ModelDefinition F → Option String
  unfolding first_usable instances_of
  first_key cfg model = first_usable cfg (instances_of model)

  -- The key of a judge that can be asked: its circuit is closed, its model is there and enabled, and
  -- has a key. These are the four tests at the top of the loop, the `apiKey == ""` with them, since
  -- firstKey gives no empty key.
  unfoldable pub ready_key : SentinelConfig F → HealthTracker → ℕ → String → Option String
  unfolding first_key is_available
  ready_key cfg health now id =
      if not (is_available id now health) then none else elim (lookup id cfg.models) [
        | none ↦ none
        | some model ↦ if not model.enabled then none else first_key cfg model
      ]

  -- The loop over the order of the judges, with the attempts made: the answer, if there is one, the
  -- attempts and the health afterwards.
  unfoldable pub ask_judges :
      Judges F
      → SentinelConfig F
      → ℤ
      → ℕ
      → List String
      → ℕ
      → HealthTracker
      → Option (Verdict F) × ℕ × HealthTracker
  unfolding ready_key record_success record_failure
  ask_judges js cfg max_attempts now [] attempts health = (none, attempts, health)
  ask_judges js cfg max_attempts now (id ∷ ids) attempts health =
      if leb_ℤ max_attempts (pos attempts)
      then (none, attempts, health)
      else elim (ready_key cfg health now id) [
        | none ↦ ask_judges js cfg max_attempts now ids attempts health
        | some key ↦ elim (js.call attempts id key) [
          | some r ↦ (some (record r { judge_id = id }), suc attempts, record_success id health)
          | none ↦
              ask_judges js cfg max_attempts now ids (suc attempts) (record_failure id now health)
        ]
      ]

  unfoldable pub answer_or_heuristic :
      Judges F → Option (Verdict F) × ℕ × HealthTracker → Verdict F × HealthTracker
  answer_or_heuristic js (some r, attempts, health) = (r, health)
  answer_or_heuristic js (none, attempts, health) =
      (record (js.heuristic) { judge_id = "heuristic"; reasoning = js.fallback attempts }, health)

  unfoldable pub evaluate :
      Judges F → Option (SentinelConfig F) → ℤ → ℕ → HealthTracker → Verdict F × HealthTracker
  unfolding ask_judges answer_or_heuristic
  evaluate js none max_attempts now health =
      (record (js.heuristic) { judge_id = "heuristic" }, health)
  evaluate js (some cfg) max_attempts now health =
      if not cfg.judge.enabled
      then (record (js.heuristic) { judge_id = "heuristic" }, health)
      else answer_or_heuristic js
          (ask_judges js cfg max_attempts now cfg.judge.model_order 0 health)
