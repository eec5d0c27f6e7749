-- ===== src/Tests/Requests.antt =====
-- Requests that run through the router, at concrete inputs.
use Prim.Native.String.{slice}
use llmsentinel_router.Prelude.{◌≡◌, refl, ap, true, false, none, some, [], ◌∷◌, length, arith}
use llmsentinel_router.Prelude.Int.{ℤ, pos}
use llmsentinel_router.Prelude.Fixed.{fixed, Fixed-IsOrdered}
use llmsentinel_router.Prelude.Map.{lookup, insert}
use llmsentinel_router.Prelude.Text.{Strings}
use llmsentinel_router.Exec.{Error, call_failed, database, other, ok, err}
use llmsentinel_router.Storage.Database.{
  Session, Table, charged, refunded, fits, select_session, exec, apply, done, lost,
}
use llmsentinel_router.Storage.Sessions
use llmsentinel_router.Budget
use llmsentinel_router.Router.Keys.{ordered_keys}
use llmsentinel_router.Config.{ModelDefinition, SentinelConfig}
use llmsentinel_router.Config.Settings.{Environment, Settings, load_settings}
use llmsentinel_router.Storage.Bounds.{IsSound, WithinLimit}
use llmsentinel_router.Budget.{settle_cost}
use llmsentinel_router.Budget.Alone.{alone}
use llmsentinel_router.Threshold
use llmsentinel_router.Cycle.{new_registry}
use llmsentinel_router.Semantic.Hash.{Digest}
use llmsentinel_router.Semantic.Persistent.{new_persistent}
use llmsentinel_router.Judge.Health.{new_health_tracker}
use llmsentinel_router.Redaction.{Regexps, new_engine}
use llmsentinel_router.Router.Calls.{Reply, Provider}
use llmsentinel_router.Router.World.{World, Request, Outside}
use llmsentinel_router.Router.Route.{worst_case, or_text}
use llmsentinel_router.Router.Finish.{Answer, log, route}
use llmsentinel_router.Router.Money.{IsSecured, route-IsSecured}
use llmsentinel_router.Router.Policy.{update_policy, update_policy-IsSecured}
use llmsentinel_router.Router.Answered.{IsAnswered, route-IsAnswered}
use llmsentinel_router.Router.Refused.{IsForgone, route_refused}
use llmsentinel_router.Router.Alone.{HasRoom}
use llmsentinel_router.Router.Settled.{route_leaks, route_settles}

-- Texts in lower case without blanks; a text has one field.
abbrev pub strings : Strings
strings = record {
  to_lower = λ s. s;
  to_upper = λ s. s;
  trim_space = λ s. s;
  fields = λ s. s ∷ [];
  trim = λ s cutset. s;
  last_index = λ s t. none;
}

-- No variable is set.
abbrev pub environment : Environment ℤ
environment = record {
  get = λ key. "";
  parse_float = λ s. none;
  atoi = λ s. none;
  parse_bool = λ s. none;
}

abbrev pub regexps : Regexps
regexps = record {
  cut = slice;
  match_string = λ re text. false;
  replace_all = λ re f text. f text;
  hmac_hex = λ salt text. "0123456789abcdef";
}

abbrev digest : Digest
digest = record { tokens = λ text. text ∷ []; sum256 = λ token. 1 ∷ 2 ∷ 3 ∷ 4 ∷ 5 ∷ 6 ∷ 7 ∷ 8 ∷ [] }

abbrev model : ModelDefinition ℤ
model = record {
  enabled = true;
  provider = "openai";
  model_id = "base";
  key_instance = "i1";
  key_instances = [];
  pricing = record { input_cost_per_m = pos 0; output_cost_per_m = pos 0 };
  limits = record {
    requests_per_minute = pos 0;
    requests_per_day = pos 0;
    tokens_per_minute = pos 0;
    tokens_per_day = pos 0;
  };
}

abbrev cfg : SentinelConfig ℤ
cfg = record {
  keys = ("k1", record { type = "openai"; value = "sk-1" }) ∷ [];
  key_instances = ("i1", record { key_ref = "k1"; priority = pos 1; enabled = true }) ∷ [];
  models = ("small", model) ∷ ("large", model) ∷ [];
  weak_order = "small" ∷ [];
  strong_order = "large" ∷ [];
  judge = record { enabled = true; model_order = "small" ∷ []; complexity_threshold = pos 700_000 };
  semantic_cache_enabled = true;
}

abbrev session : Session ℤ
session = record {
  session_id = "s";
  client_ip = none;
  tier = "free";
  created_at = 1;
  max_cost_per_session = pos 10_000_000;
  current_cost = pos 1_000_000;
  is_active = true;
  version = 0;
}

abbrev table : Table ℤ
table = ("s", session) ∷ []

abbrev world : World ℤ
world = record {
  router = record {
    settings = load_settings environment strings;
    config = some cfg;
    budget = record { max_cost_per_session = pos 10_000_000 };
    threshold = Threshold.new (pos 50_000) (pos 20) (pos 700_000);
    cycles = new_registry (pos 1_000) (pos 3) (pos 50);
    cache = new_persistent (pos 3) (pos 750_000) (pos 60);
    limiter = record { safety_margin = pos 950_000; windows = [] };
    redactor = new_engine strings "logs" "simple" "" [];
    health = new_health_tracker (pos 3) (pos 60);
    max_attempts = pos 3;
    models = record { model_status = []; model_stats = [] };
  };
  db = alone table;
  cache_store = record { rows = []; entries = []; faults = [] };
  logs = record {
    cycle_detections = [];
    escalation_logs = [];
    escalation_traces = [];
    decisions = record { rows = []; next_id = 1 };
    outcomes = [];
  };
}

abbrev request : Request
request = record {
  session_id = "s";
  client_ip = "";
  tier = "";
  prompt = "hi";
  messages = [];
  use_judge = none;
}

abbrev reply : Reply ℤ
reply = record {
  content = "hello";
  model = "base";
  cost = pos 3_000;
  prompt_tokens = pos 5;
  completion_tokens = pos 7;
  total_tokens = pos 12;
}

abbrev answers : Provider ℤ
answers = record { call = λ n id key. ok reply }

abbrev fails : Provider ℤ
fails = record { call = λ n id key. err call_failed }

abbrev outside : Provider ℤ → Outside ℤ
outside p = record {
  strings = strings;
  regexps = regexps;
  digest = digest;
  readers = record { high_impact = λ s. false; unmarshal = λ s. none };
  hash_payload = λ prompt messages. prompt;
  hex = λ bytes. "01020304";
  session_id = "new";
  request_id = "r";
  judge_answer = λ prompt n id key. none;
  first = p;
  second = p;
  expired = false;
  conf_text = λ x. "";
  reason_text = λ r. "below";
  fallback_text = λ n. "unavailable";
  first_clock = λ i. 9;
  second_clock = λ i. 9;
  created = 9;
  looked_up = 9;
  judged = 9;
  answered = 9;
  logged = 9;
  request_latency = pos 0;
  model_latency = pos 0;
}

abbrev answer : Answer ℤ
answer = record {
  model_used = "small";
  reply = reply;
  verdict = record {
    complexity_score = pos 0;
    impact_scope = "LOW";
    reasoning = "Judge deferred - conditional mode (will call if weak model is slow)";
    judge_id = "";
  };
  cost = pos 3_000;
  cost_source = "provider";
  computed_cost = none;
  session_cost = pos 1_003_000;
  cycle_detected = false;
  decision_reason = "below";
  tier = "weak";
  use_judge = none;
}

answered : (route (outside answers) request world).0 ≡ ok answer
unfolding route lookup Budget.get_or_create_session Sessions.get_or_create_session
    Sessions.get_session select_session load_settings Sessions.reserve_budget exec apply fits
    Sessions.get_session_required insert new_persistent new_registry Threshold.new ordered_keys
    Sessions.adjust_reserved_cost refunded charged
answered = refl

session-WithinLimit : WithinLimit session
session-WithinLimit = record { not_negative = refl; within = refl; finite = refl }

table-IsSound : IsSound table
unfolding lookup
table-IsSound id r h = ground (arith, session-WithinLimit)

secured : IsSecured world.db world.router.settings world.router.budget
unfolding load_settings
secured = record {
  kill_switch = refl;
  not_negative = refl;
  finite = refl;
  safe = record { sound = table-IsSound; guarded = tt };
}

route-IsSecured_example :
    let w = (route (outside answers) request world).1 in
    IsSecured w.db w.router.settings w.router.budget
route-IsSecured_example = route-IsSecured Fixed-IsOrdered (outside answers) request world secured

update_policy-IsSecured_example :
    let r = update_policy strings (load_settings environment strings) world.router in
    IsSecured world.db r.settings r.budget
unfolding load_settings
update_policy-IsSecured_example =
    update_policy-IsSecured Fixed-IsOrdered strings (load_settings environment strings) world refl
      refl secured

route-IsAnswered_example :
    (c : SentinelConfig ℤ) × (world.router.config ≡ some c)
    × IsAnswered (outside answers) c request world answer (route (outside answers) request world).1
route-IsAnswered_example =
    route-IsAnswered (outside answers) request world (route (outside answers) request world).1
      answer (ap (λ r. (r, (route (outside answers) request world).1)) answered)

unserved : (route (outside fails) request world).0 ≡ err call_failed
unfolding route lookup Budget.get_or_create_session Sessions.get_or_create_session
    Sessions.get_session select_session load_settings Sessions.reserve_budget exec apply fits
    Sessions.get_session_required insert new_persistent new_registry Threshold.new ordered_keys
    charged
unserved = refl

route_refused_example :
    IsForgone
      (or_text request.session_id (outside fails).session_id)
      world
      call_failed
      (route (outside fails) request world).1
route_refused_example = route_refused (outside fails) request world call_failed unserved

roomy : HasRoom world "s" table session
unfolding load_settings lookup fits
roomy = record { kill_switch = refl; quiet = refl; here = refl; room = refl }

route_leaks_example :
    (e : Error) × ((route (outside fails) request world).0 ≡ err e)
    × ((route (outside fails) request world).1.db
        ≡ alone (insert "s" (charged worst_case session) table))
route_leaks_example =
    route_leaks (outside fails) cfg request world table session refl roomy
      (λ n id key. (call_failed, refl)) (λ n id key. (call_failed, refl))

route_settles_example :
    let w = (route (outside answers) request world).1 in
    (w.db
      ≡ (settle_cost "s" worst_case
          (pos 3_000)
          (alone (insert "s" (charged worst_case session) table))).1)
    × ((row : Session ℤ) × (lookup "s" w.db.sessions ≡ some row)
        × (pos 1_003_000 ≡ row.current_cost))
route_settles_example =
    route_settles (outside answers) cfg request world (route (outside answers) request world).1
      table session answer refl roomy
      (ap (λ r. (r, (route (outside answers) request world).1)) answered)

-- A policy whose limit is 0 leaves the limit of the budget as it was.
abbrev policy : Settings ℤ
policy = record (load_settings environment strings) { max_cost_per_session = pos 0 }

policy_on : policy.enable_budget_kill_switch ≡ true
unfolding load_settings
policy_on = refl

-- The log loses the result of its INSERT.
abbrev losing : World ℤ
losing = record world { logs = record (world.logs) { outcomes = done ∷ lost other ∷ [] } }

lost_row : (route (outside answers) request losing).0 ≡ err (database other)
unfolding route lookup Budget.get_or_create_session Sessions.get_or_create_session
    Sessions.get_session select_session load_settings Sessions.reserve_budget exec apply fits
    Sessions.get_session_required insert new_persistent new_registry Threshold.new ordered_keys
    Sessions.adjust_reserved_cost refunded charged log
lost_row = refl

-- A request whose row is written though its error is that of the INSERT.
row_of_lost : length ((route (outside answers) request losing).1.logs.decisions.rows) ≡ 1
unfolding route lookup Budget.get_or_create_session Sessions.get_or_create_session
    Sessions.get_session select_session load_settings Sessions.reserve_budget exec apply fits
    Sessions.get_session_required insert new_persistent new_registry Threshold.new ordered_keys
    Sessions.adjust_reserved_cost refunded charged log
row_of_lost = refl
