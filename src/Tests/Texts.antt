-- ===== src/Tests/Texts.antt =====
-- Redaction, the judges' rules and the stored state at concrete inputs.
use Prim.Native.String.{slice}
use llmsentinel_router.Prelude.{
  ℕ, String, List, Bool, ◌==◌, ◌≡◌, refl, true, false, none, some, [], ◌∷◌, arith,
}
use llmsentinel_router.Prelude.Int.{ℤ, pos}
use llmsentinel_router.Prelude.Fixed.{fixed, Fixed-IsOrdered}
use llmsentinel_router.Prelude.Map.{Map, lookup, insert}
use llmsentinel_router.Prelude.Text.{◌<>◌}
use llmsentinel_router.Exec.{other}
use llmsentinel_router.Storage.Database.{done, lost}
use llmsentinel_router.Storage.State.{Json, found, load_state, save_state}
use llmsentinel_router.Judge.Registry.{Verdict}
use llmsentinel_router.Judge.Rules.{Readers, heuristic, parse}
use llmsentinel_router.Judge.Verdicts.{IsRated, heuristic-IsRated, parse-IsRated}
use llmsentinel_router.Metrics.Aggregate.{Metric, aggregate_of}
use llmsentinel_router.Redaction.{Engine, Regexps, new_engine, mask, scrub}
use llmsentinel_router.Redaction.Scrubbing.{any_fires, IsHonest, scrub-IsHonest, mask_keeps_ends}
use llmsentinel_router.Tests.Requests.{strings, environment}
use llmsentinel_router.Config.Settings.{Settings, load_settings}
use llmsentinel_router.Config.Legacy.{LegacyModel, LegacyOrder, ids, convert}
use llmsentinel_router.Config.Tiering.{count, IsAscending, in_tier, convert-IsAscending}

-- Every text is one match of every expression.
abbrev greedy : Regexps
greedy = record {
  cut = slice;
  match_string = λ re text. true;
  replace_all = λ re f text. f text;
  hmac_hex = λ salt text. "0123456789abcdef";
}

abbrev engine : Engine
engine = new_engine strings "strict" "simple" "" ("pii" ∷ [])

scrub-IsHonest_example :
    ((scrub strings greedy engine "123-45-6789").has_sensitive_data
      ≡ any_fires strings greedy engine engine.patterns "123-45-6789")
    × IsHonest "123-45-6789" (scrub strings greedy engine "123-45-6789")
scrub-IsHonest_example = scrub-IsHonest strings greedy engine "123-45-6789"

mask_keeps_ends_example :
    mask greedy engine ("123-" <> "45-" <> "6789") "SSN" ≡ "123-" <> "..." <> "6789"
unfolding new_engine
mask_keeps_ends_example =
    mask_keeps_ends greedy engine "123-" "45-" "6789" "SSN" (λ s i j h. refl) refl refl refl
      (ground arith)

-- A judge that answers 2.5 and a scope that is none.
abbrev readers : Readers ℤ
readers = record {
  high_impact = λ text. text == "deploy";
  unmarshal = λ text. some (pos 2_500_000, "huge", "");
}

heuristic-IsRated_example : IsRated (heuristic strings readers "deploy")
heuristic-IsRated_example = heuristic-IsRated Fixed-IsOrdered strings readers "deploy"

abbrev clamped : Verdict ℤ
clamped = record {
  complexity_score = pos 1_000_000;
  impact_scope = "LOW";
  reasoning = "No reasoning supplied.";
  judge_id = "";
}

parsed : parse strings readers "{}" ≡ some clamped
unfolding parse
parsed = refl

parse-IsRated_example : IsRated clamped
parse-IsRated_example =
    parse-IsRated Fixed-IsOrdered strings readers "{}" clamped
      (λ text score scope reasoning h. ground (arith, Fixed-IsOrdered.refl_of_finite score)) parsed

-- Texts are stored as they are.
abbrev as_is : Json String
as_is = record { marshal = λ s. some s; unmarshal = λ dest s. some s }

-- A statement that loses its result has written the row.
abbrev states : Map (String × ℕ)
states = ("mode", ("off", 1)) ∷ []

lost_but_saved :
    load_state as_is "mode" "" done (save_state as_is "mode" "on" 5 (lost other) states).1
    ≡ found "on"
unfolding load_state save_state lookup insert
lost_but_saved = refl

abbrev legacy_model : String → ℤ → LegacyModel ℤ
legacy_model group order = record {
  provider = "groq";
  model_key = "";
  status = "ACTIVE";
  priority_group = group;
  order = order;
  limits = record {
    requests_per_minute = pos 0;
    requests_per_day = pos 0;
    tokens_per_minute = pos 0;
    tokens_per_day = pos 0;
  };
  pricing = record { input_cost_per_m = pos 0; output_cost_per_m = pos 0 };
}

abbrev legacy : List (String × LegacyModel ℤ)
legacy =
    ("b", legacy_model "fast_tier" (pos 2))
    ∷ ("c", legacy_model "strong_tier" (pos 1))
    ∷ ("a", legacy_model "fast_tier" (pos 1))
    ∷ []

abbrev settings : Settings ℤ
settings = load_settings environment strings

weak_by_number : (convert strings settings legacy).weak_order ≡ "a" ∷ "b" ∷ []
unfolding convert lookup insert load_settings
weak_by_number = refl

convert-IsAscending_example :
    (weak : List LegacyOrder) × (strong : List LegacyOrder) × ((convert strings settings
        legacy).weak_order
      ≡ ids weak)
    × ((convert strings settings legacy).strong_order ≡ ids strong)
    × IsAscending weak
    × IsAscending strong
    × ((p : LegacyOrder → Bool)
        → (count p weak ≡ in_tier strings false p legacy)
          × (count p strong ≡ in_tier strings true p legacy))
convert-IsAscending_example = convert-IsAscending strings settings legacy

abbrev skip_and_call : List (Metric ℤ)
skip_and_call =
    record {
      type = "judge_skip";
      status = "";
      latency_ms = none;
      reason = some "semantic_cache";
      timestamp = 60_001;
    }
    ∷ record {
      type = "judge_latency";
      status = "";
      latency_ms = some (pos 30);
      reason = none;
      timestamp = 60_002;
    }
    ∷ []

half_skipped : (aggregate_of (λ n. "00:01") skip_and_call []).judge_skip_rate ≡ pos 500_000
unfolding aggregate_of lookup insert
half_skipped = refl
