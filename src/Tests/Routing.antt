-- ===== src/Tests/Routing.antt =====
-- The configuration, the judges and the router at concrete inputs.
use llmsentinel_router.Prelude.{
  zero, suc, String, ◌==◌, ◌≡◌, refl, Bool, true, false, none, some, List, [], ◌∷◌, map,
  if◌then◌else◌, ◌⊎◌, inl, inr,
}
use llmsentinel_router.Prelude.Int.{ℤ, pos}
use llmsentinel_router.Prelude.Fixed.{fixed, Fixed-IsOrdered}
use llmsentinel_router.Prelude.Map.{lookup}
use llmsentinel_router.Exec.{ok, err, call_failed}
use llmsentinel_router.Config.{ModelDefinition, SentinelConfig, instances_of}
use llmsentinel_router.Config.Validation.{validate}
use llmsentinel_router.Config.Tiers.{IsSound, validate-IsSound}
use llmsentinel_router.Judge.Health.{new_health_tracker, is_available}
use llmsentinel_router.Judge.Recovery.{
  Event, succeeded, failed, run, failures_in_a_row, last_failure_of, available_by, run-is_available,
}
use llmsentinel_router.Judge.Registry.{Verdict, Judges, evaluate}
use llmsentinel_router.Judge.Failover.{IsJudged, evaluate-IsJudged}
use llmsentinel_router.Rate.{Limiter}
use llmsentinel_router.Router.Decision.{decide_route, decide_route_mono}
use llmsentinel_router.Router.Keys.{
  value_of, usable_keys, ordered_keys, IsSorted, count, ordered_keys-IsSorted,
}
use llmsentinel_router.Router.Models.{
  set_model_status, set_model_status-not_candidate, Models, candidates, occurrences, is_routable,
  occurrences-candidates,
}
use llmsentinel_router.Router.Calls.{Reply, Provider, call_candidates}
use llmsentinel_router.Router.Served.{IsServed, call_candidates-IsServed, call_candidates_answered}

abbrev model_with : List String → ModelDefinition ℤ
model_with instances = record {
  enabled = true;
  provider = "openai";
  model_id = "base";
  key_instance = "i1";
  key_instances = instances;
  pricing = record { input_cost_per_m = pos 0; output_cost_per_m = pos 0 };
  limits = record {
    requests_per_minute = pos 0;
    requests_per_day = pos 0;
    tokens_per_minute = pos 0;
    tokens_per_day = pos 0;
  };
}

abbrev cfg : SentinelConfig ℤ
cfg = record {
  keys =
      ("k1", record { type = "openai"; value = "sk-1" })
      ∷ ("k2", record { type = "openai"; value = "sk-2" })
      ∷ [];
  key_instances =
      ("i1", record { key_ref = "k1"; priority = pos 2; enabled = true })
      ∷ ("i2", record { key_ref = "k2"; priority = pos 1; enabled = true })
      ∷ [];
  models = ("small", model_with []) ∷ ("large", model_with ("i1" ∷ "i2" ∷ [])) ∷ [];
  weak_order = "small" ∷ [];
  strong_order = "large" ∷ [];
  judge = record {
    enabled = true;
    model_order = "large" ∷ "small" ∷ [];
    complexity_threshold = pos 700_000;
  };
  semantic_cache_enabled = true;
}

validate_passes : validate cfg ≡ none
unfolding validate lookup
validate_passes = refl

validate-IsSound_example : IsSound cfg
validate-IsSound_example = validate-IsSound cfg validate_passes

abbrev outages : List Event
outages = failed "j" 900 ∷ failed "k" 800 ∷ failed "j" 700 ∷ succeeded "j" ∷ failed "j" 100 ∷ []

run-is_available_example :
    is_available "j" 950 (run outages (new_health_tracker (pos 2) (pos 60)))
    ≡ available_by
        (new_health_tracker (pos 2) (pos 60)).failure_threshold
        (new_health_tracker (pos 2) (pos 60)).cooldown
        950
        (failures_in_a_row "j" outages)
        (last_failure_of "j" outages)
run-is_available_example = run-is_available (pos 2) (pos 60) outages "j" 950

abbrev verdict : Verdict ℤ
verdict = record {
  complexity_score = pos 900_000;
  impact_scope = "HIGH";
  reasoning = "long";
  judge_id = "";
}

-- The first call fails, the others answer.
abbrev judges : Judges ℤ
judges = record {
  call = λ n id key. elim n [ zero ↦ none | suc n ↦ some verdict ];
  heuristic = verdict;
  fallback = λ attempts. "unavailable";
}

evaluate-IsJudged_example :
    let r = (evaluate judges (some cfg) (pos 3) 5 (new_health_tracker (pos 2) (pos 60))).0 in
    IsJudged judges cfg (pos 3) r
    ⊎ ((r.judge_id ≡ "heuristic")
        × (r.complexity_score ≡ judges.heuristic.complexity_score)
        × (r.impact_scope ≡ judges.heuristic.impact_scope))
evaluate-IsJudged_example =
    evaluate-IsJudged judges cfg (pos 3) 5 (new_health_tracker (pos 2) (pos 60)) refl

decide_route_mono_example : decide_route (pos 950_000) "HIGH" (pos 700_000) true false ≡ "strong"
unfolding decide_route
decide_route_mono_example =
    decide_route_mono Fixed-IsOrdered (pos 900_000) (pos 950_000) "HIGH" (pos 700_000) true false
      refl refl refl refl

ordered_keys-IsSorted_example :
    (items : List (ℤ × String)) × (ordered_keys cfg (model_with ("i1" ∷ "i2" ∷ []))
      ≡ map value_of items)
    × IsSorted items
    × ((p : ℤ × String → Bool)
        → count p items ≡ count p (usable_keys cfg (instances_of (model_with ("i1" ∷ "i2" ∷ [])))))
ordered_keys-IsSorted_example = ordered_keys-IsSorted cfg (model_with ("i1" ∷ "i2" ∷ []))

low_priority_last : ordered_keys cfg (model_with ("i1" ∷ "i2" ∷ [])) ≡ "sk-2" ∷ "sk-1" ∷ []
unfolding ordered_keys lookup
low_priority_last = refl

abbrev models : Models ℤ
models = record { model_status = []; model_stats = [] }

occurrences-candidates_example : occurrences "large" (candidates cfg "strong_tier" models) ≡ (
    if is_routable cfg.models models "large"
    then occurrences "large"
        (if "strong_tier" == "strong_tier" then cfg.strong_order else cfg.weak_order)
    else 0)
occurrences-candidates_example = occurrences-candidates cfg "strong_tier" models "large"

set_model_status-not_candidate_example :
    occurrences "large" (candidates cfg "strong_tier" (set_model_status "large" "paused" models))
    ≡ 0
set_model_status-not_candidate_example =
    set_model_status-not_candidate cfg "strong_tier" "large" "paused" models refl refl

abbrev reply : Reply ℤ
reply = record {
  content = "hello";
  model = "";
  cost = pos 3_000;
  prompt_tokens = pos 5;
  completion_tokens = pos 7;
  total_tokens = pos 12;
}

abbrev named_reply : Reply ℤ
named_reply = record {
  content = "hello";
  model = "base";
  cost = pos 3_000;
  prompt_tokens = pos 5;
  completion_tokens = pos 7;
  total_tokens = pos 12;
}

-- The key "sk-2" always fails, the other one answers.
abbrev provider : Provider ℤ
provider = record { call = λ n id key. if key == "sk-2" then err call_failed else ok reply }

abbrev limiter : Limiter ℤ
limiter = record { safety_margin = pos 950_000; windows = [] }

served :
    (call_candidates provider cfg "strong_tier" (pos 4) (λ i. 9) models limiter).0
    ≡ ok (named_reply, "large")
unfolding call_candidates lookup ordered_keys
served = refl

call_candidates-IsServed_example :
    IsServed provider cfg
      (pos 4)
      (λ i. 9)
      0
      limiter
      (candidates cfg "strong_tier" models)
      named_reply
      "large"
call_candidates-IsServed_example =
    call_candidates-IsServed provider cfg "strong_tier" (pos 4) (λ i. 9) models limiter named_reply
      "large" served

call_candidates_answered_example :
    (out : Reply ℤ × String) × ((call_candidates provider cfg "strong_tier"
        (pos 4)
        (λ i. 9)
        models
        limiter).0
      ≡ ok out)
unfolding candidates lookup ordered_keys
call_candidates_answered_example =
    call_candidates_answered provider cfg "strong_tier" (pos 4) (λ i. 9) models limiter "large"
      "sk-1" (inl refl) (refl, refl, refl, refl) (inr (inl refl)) (λ number. (reply, refl))
