-- ===== src/Tests/Restarts.antt =====
-- The persistent semantic cache and the summary of decisions at concrete inputs.
use llmsentinel_router.Prelude.{String, ◌≡◌, refl, Bool, true, none, some, [], ◌∷◌, arith, map}
use llmsentinel_router.Prelude.Int.{ℤ, pos}
use llmsentinel_router.Prelude.Fixed.{fixed}
use llmsentinel_router.Storage.Decisions.{
  RoutingDecision, Decisions, insert_routing_decision, recent_routing_decisions,
}
use llmsentinel_router.Prelude.Map.{lookup, insert}
use llmsentinel_router.Semantic.Persistent.{
  Store, PersistentCache, persistent_route, persistent_record,
}
use llmsentinel_router.Semantic.Restart.{
  InStep, restarted, persistent_record-InStep, restarted_route,
}

abbrev cache : PersistentCache ℤ
cache = record {
  inner = record {
    min_samples = pos 1;
    confidence_threshold = pos 750_000;
    ttl = pos 60_000_000_000;
    stats = [];
  };
  loaded = true;
}

abbrev store : Store ℤ
store = record { rows = []; entries = []; faults = [] }

cache-InStep : InStep cache store
unfolding lookup
cache-InStep = record {
  is_loaded = refl;
  no_faults = refl;
  unique = tt;
  same = λ h. refl;
  keyed = λ h st e. absurd (ground arith);
}

abbrev after_one : PersistentCache ℤ × Store ℤ
after_one =
    persistent_record "h" "x" "hi" "large" "strong" (pos 20_000_000) true (pos 3_000) (pos 40) 1_000
      1_001 (cache, store)

persistent_record-InStep_example : InStep after_one.0 after_one.1
persistent_record-InStep_example =
    persistent_record-InStep "h" "x" "hi" "large" "strong" (pos 20_000_000) true (pos 3_000)
      (pos 40) 1_000 1_001 cache store (ground arith) cache-InStep

restarted_route_example :
    ◌≡◌ {A = String × ℤ × Bool}
      (
        (persistent_route "h" 2_000 (restarted after_one.0, after_one.1)).1,
        (persistent_route "h" 2_000 (restarted after_one.0, after_one.1)).2,
        (persistent_route "h" 2_000 (restarted after_one.0, after_one.1)).3,
      )
      (
        (persistent_route "h" 2_000 (after_one.0, after_one.1)).1,
        (persistent_route "h" 2_000 (after_one.0, after_one.1)).2,
        (persistent_route "h" 2_000 (after_one.0, after_one.1)).3,
      )
restarted_route_example = restarted_route "h" 2_000 after_one.0 after_one.1 (
    persistent_record-InStep "h" "x" "hi" "large" "strong" (pos 20_000_000) true (pos 3_000)
      (pos 40) 1_000 1_001 cache store (ground arith) cache-InStep)

sure_after_restart : (persistent_route "h" 2_000 (restarted after_one.0, after_one.1)).1 ≡ "strong"
unfolding persistent_route persistent_record lookup insert
sure_after_restart = refl

abbrev decision : RoutingDecision ℤ
decision = record {
  decision_id = 0;
  session_id = "a";
  request_id = "r";
  timestamp = 5;
  model_used = "large";
  complexity_score = pos 900_000;
  cost_incurred = pos 3_000;
  cost_source = "provider";
  computed_cost = none;
  prompt_hash = "p";
  impact_scope = some "HIGH";
  reason = none;
  input_tokens = pos 10;
  output_tokens = pos 30;
  total_tokens = pos 40;
  request_latency_ms = pos 20_000_000;
  model_latency_ms = pos 19_000_000;
  judge_latency_ms = none;
}

abbrev two_decisions : Decisions ℤ
two_decisions =
    insert_routing_decision (record decision { model_used = "small"; timestamp = 3 })
      (insert_routing_decision decision (record { rows = []; next_id = 1 }))

latest_first : map (λ d. d.timestamp) (recent_routing_decisions (pos 0) two_decisions) ≡ 5 ∷ 3 ∷ []
unfolding recent_routing_decisions insert_routing_decision
latest_first = refl
