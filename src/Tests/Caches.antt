-- ===== src/Tests/Caches.antt =====
-- The semantic cache and the hash at concrete inputs.
use llmsentinel_router.Prelude.{◌+◌, String, ◌≡◌, refl, false, some, List, [], ◌∷◌}
use llmsentinel_router.Prelude.Int.{ℤ, pos, ◌+ℤ◌, ◌≤ℤ◌}
use llmsentinel_router.Prelude.Fixed.{fixed}
use llmsentinel_router.Prelude.Map.{lookup}
use llmsentinel_router.Semantic.Cache.{Stats, Cache, new_cache, confidence, confident_route}
use llmsentinel_router.Semantic.Routes.{
  Call, record_all, calls_of, strong_of, weak_of, counts, counts-record_all, IsSure,
  confident_route_sound,
}

abbrev of_route : String → Call ℤ
of_route route = record {
  hash = "h";
  model = "m";
  route = route;
  latency = pos 20_000_000;
  judged = false;
  cost = pos 3_000;
  tokens = pos 40;
  at = 1_000;
}

abbrev recorded : List (Call ℤ)
recorded = of_route "strong" ∷ of_route "weak" ∷ of_route "strong" ∷ of_route "strong" ∷ []

abbrev empty_cache : Cache ℤ
empty_cache = new_cache (pos 3) (pos 750_000) (pos 60)

abbrev mostly_strong : Stats ℤ
mostly_strong = record {
  semantic_hash = "h";
  total_calls = 4;
  weak_calls = 1;
  strong_calls = 3;
  judge_invocations = 0;
  total_latency_ms = pos 80_000_000;
  total_cost = pos 12_000;
  total_tokens = pos 160;
  last_model = "m";
  last_called_at = 1_000;
  first_seen_at = 1_000;
}

abbrev cache : Cache ℤ
cache = record {
  min_samples = pos 3;
  confidence_threshold = pos 750_000;
  ttl = pos 60_000_000_000;
  stats = ("h", mostly_strong) ∷ [];
}

confident_route_sound_example :
    (s : Stats ℤ) × (lookup "h" cache.stats ≡ some s)
    × (pos 2_000 ≤ℤ pos s.last_called_at +ℤ cache.ttl)
    × IsSure cache s (confident_route "h" 2_000 cache).1
unfolding lookup confidence confident_route
confident_route_sound_example = confident_route_sound "h" 2_000 cache refl

counts-record_all_example :
    counts (lookup "h" (record_all recorded cache).stats)
    ≡ (4 + calls_of "h" recorded, 3 + strong_of "h" recorded, 1 + weak_of "h" recorded)
unfolding lookup
counts-record_all_example = counts-record_all recorded "h" cache
