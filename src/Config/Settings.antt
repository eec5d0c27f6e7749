-- ===== src/Config/Settings.antt =====
-- internal/config/settings.go: the settings and how they are read from the environment. os.Getenv is
-- `get`, with the empty text for a variable that is not set; the parsers of strconv give `none` for an
-- error.
use llmsentinel_router.Prelude.{
  String, ◌==◌, Bool, true, Option, none, some, List, [], ◌∷◌, if◌then◌else◌,
}
use llmsentinel_router.Prelude.Int.{ℤ, pos}
use llmsentinel_router.Prelude.Float.{Float64}
use llmsentinel_router.Prelude.Text.{Strings, split_at}

pub record Environment (F : Type 0) : Type 0 where
  pub get : String → String
  pub parse_float : String → Option F
  pub atoi : String → Option ℤ
  pub parse_bool : String → Option Bool

pub record Settings (F : Type 0) : Type 0 where
  pub deep_seek_api_key : String
  pub anthropic_api_key : String
  pub gemini_backup1_api_key : String
  pub gemini_backup2_api_key : String
  pub groq_api_key : String
  pub open_router_api_key : String
  pub weak_model_id : String
  pub strong_model_id : String
  pub max_cost_per_session : F
  pub initial_threshold : F
  pub escalation_rate_limit : F
  pub complexity_threshold : F
  pub conditional_judge_timeout : F
  pub target_escalation_rate : F
  pub rolling_window_size : ℤ
  pub cors_origins : String
  pub database_url : String
  pub log_level : String
  pub log_file : String
  pub admin_api_token : String
  pub models_config_path : String
  pub sentinel_config_path : String
  pub enable_budget_kill_switch : Bool
  pub enable_cycle_detection : Bool
  pub enable_dynamic_threshold : Bool
  pub cycle_detection_window_size : ℤ
  pub cycle_detection_threshold : ℤ
  pub redaction_mode : String
  pub redaction_strategy : String
  pub redaction_salt : String
  pub redaction_categories : List String
  pub semantic_cache_enabled : Bool
  pub semantic_cache_min_samples : ℤ
  pub semantic_cache_confidence : F
  pub semantic_cache_ttl_seconds : ℤ
  pub host : String
  pub port : String
  pub dashboard_port : String
  pub judge_failure_threshold : ℤ
  pub judge_cooldown_seconds : ℤ
  pub judge_max_attempts : ℤ

abbrev or_else {ℓ} : {A : Type ℓ} → Option A → A → A
or_else none d = d
or_else (some a) d = a

-- The parts that are not empty after trimming.
unfoldable pub trimmed_parts : Strings → List String → List String
trimmed_parts st [] = []
trimmed_parts st (p ∷ ps) =
    let rest = trimmed_parts st ps in if st.trim_space p == "" then rest else st.trim_space p ∷ rest

module _ {F : Type 0} (env : Environment F) where
  unfoldable pub env_string : String → String → String
  env_string key fallback = if env.get key == "" then fallback else env.get key

  unfoldable pub env_float : String → F → F
  env_float key fallback =
      if env.get key == "" then fallback else or_else (env.parse_float (env.get key)) fallback

  unfoldable pub env_int : String → ℤ → ℤ
  env_int key fallback =
      if env.get key == "" then fallback else or_else (env.atoi (env.get key)) fallback

  unfoldable pub env_bool : String → Bool → Bool
  env_bool key fallback =
      if env.get key == "" then fallback else or_else (env.parse_bool (env.get key)) fallback

  unfoldable pub env_list : Strings → String → List String
  unfolding split_at trimmed_parts
  env_list st key =
      if env.get key == "" then [] else trimmed_parts st (split_at b',' "" (env.get key))

  unfoldable pub load_settings : ⦃fl : Float64 F⦄ → Strings → Settings F
  unfolding env_string env_float env_int env_bool env_list
  load_settings ⦃fl⦄ st = record {
    deep_seek_api_key = env_string "DEEPSEEK_API_KEY" "";
    anthropic_api_key = env_string "ANTHROPIC_API_KEY" "";
    gemini_backup1_api_key = env_string "GEMINI_BACKUP1_API_KEY" (env_string "GEMINI_API_KEY" "");
    gemini_backup2_api_key = env_string "GEMINI_BACKUP2_API_KEY" (env_string "GEMINI_API_KEY" "");
    groq_api_key = env_string "GROQ_API_KEY" "";
    open_router_api_key = env_string "OPENROUTER_API_KEY" "";
    weak_model_id = env_string "WEAK_MODEL_ID" "deepseek-chat";
    strong_model_id = env_string "STRONG_MODEL_ID" "claude-3-opus-20240229";
    max_cost_per_session = env_float "MAX_COST_PER_SESSION" (fl.lit 100_000);
    initial_threshold = env_float "INITIAL_THRESHOLD" (fl.lit 7_000);
    escalation_rate_limit = env_float "ESCALATION_RATE_LIMIT" (fl.lit 500);
    complexity_threshold = env_float "COMPLEXITY_THRESHOLD" (fl.lit 5_000);
    conditional_judge_timeout = env_float "CONDITIONAL_JUDGE_TIMEOUT_SECONDS" (fl.lit 150_000);
    target_escalation_rate = env_float "TARGET_ESCALATION_RATE" (fl.lit 500);
    rolling_window_size = env_int "ROLLING_WINDOW_SIZE" (pos 20);
    cors_origins = env_string "CORS_ORIGINS" "*";
    database_url = env_string "DATABASE_URL" "sqlite:///./data/sentinelrouter.db";
    log_level = env_string "LOG_LEVEL" "INFO";
    log_file = env_string "LOG_FILE" "./logs/sentinelrouter.log";
    admin_api_token = env_string "ADMIN_API_TOKEN" "";
    models_config_path = env_string "MODELS_CONFIG_PATH" "./config/models_config.json";
    sentinel_config_path = env_string "SENTINEL_CONFIG_PATH" "./config/sentinel_config.json";
    enable_budget_kill_switch = env_bool "ENABLE_BUDGET_KILLSWITCH" true;
    enable_cycle_detection = env_bool "ENABLE_CYCLE_DETECTION" true;
    enable_dynamic_threshold = env_bool "ENABLE_DYNAMIC_THRESHOLD" true;
    cycle_detection_window_size = env_int "CYCLE_DETECTION_WINDOW_SIZE" (pos 50);
    cycle_detection_threshold = env_int "CYCLE_DETECTION_SIMHASH_THRESHOLD" (pos 3);
    redaction_mode = st.to_lower (env_string "REDACTION_MODE" "logs");
    redaction_strategy = st.to_lower (env_string "REDACTION_STRATEGY" "simple");
    redaction_salt = env_string "REDACTION_SALT" "sentinelrouter";
    redaction_categories = env_list st "REDACTION_ENABLED_CATEGORIES";
    semantic_cache_enabled = env_bool "SEMANTIC_CACHE_ENABLED" true;
    semantic_cache_min_samples = env_int "SEMANTIC_CACHE_MIN_SAMPLES" (pos 3);
    semantic_cache_confidence = env_float "SEMANTIC_CACHE_CONFIDENCE_THRESHOLD" (fl.lit 7_500);
    semantic_cache_ttl_seconds = env_int "SEMANTIC_CACHE_TTL_SECONDS" (pos 604_800);
    host = env_string "HOST" "0.0.0.0";
    port = env_string "PORT" "8000";
    dashboard_port = env_string "DASHBOARD_PORT" "8001";
    judge_failure_threshold = env_int "JUDGE_FAILURE_THRESHOLD" (pos 3);
    judge_cooldown_seconds = env_int "JUDGE_COOLDOWN_SECONDS" (pos 60);
    judge_max_attempts = env_int "JUDGE_MAX_ATTEMPTS" (pos 3);
  }
