-- ===== src/Router/Policy.antt =====
-- New, UpdatePolicy and the resets of internal/router/router.go, and the timeout of a call that waits
-- for no judge.
use llmsentinel_router.Prelude.{◌≡◌, true, Option, none, [], if◌then◌else◌, Bool-cases, inl, inr}
use llmsentinel_router.Prelude.Int.{ℤ, pos, leb_ℤ}
use llmsentinel_router.Prelude.Float.{Float64, IsOrdered, IsFinite, le_of_lt}
use llmsentinel_router.Prelude.Text.{Strings}
use llmsentinel_router.Config.{SentinelConfig}
use llmsentinel_router.Config.Settings.{Settings}
use llmsentinel_router.Budget.{set_max_cost_per_session}
use llmsentinel_router.Threshold
use llmsentinel_router.Cycle.{new_registry}
use llmsentinel_router.Rate
use llmsentinel_router.Semantic.Persistent.{new_persistent, persistent_reset}
use llmsentinel_router.Judge.Health.{new_health_tracker}
use llmsentinel_router.Judge.Registry.{attempts_or_default}
use llmsentinel_router.Redaction.{new_engine}
use llmsentinel_router.Router.World.{Router, World}
use llmsentinel_router.Router.Money.{IsSecured}

module _ {F : Type 0} ⦃fl : Float64 F⦄ where
  -- New, with the configuration that its manager has.
  unfoldable pub new_router : Strings → Settings F → Option (SentinelConfig F) → Router F
  unfolding Threshold.new new_registry new_persistent Rate.new new_engine new_health_tracker
      attempts_or_default
  new_router st s cfg = record {
    settings = s;
    config = cfg;
    budget = record { max_cost_per_session = s.max_cost_per_session };
    threshold = Threshold.new s.target_escalation_rate s.rolling_window_size s.initial_threshold;
    cycles = new_registry (pos 1_000) s.cycle_detection_threshold s.cycle_detection_window_size;
    cache =
        new_persistent s.semantic_cache_min_samples s.semantic_cache_confidence
          s.semantic_cache_ttl_seconds;
    limiter = Rate.new (fl.lit 9_500);
    redactor =
        new_engine st s.redaction_mode s.redaction_strategy s.redaction_salt s.redaction_categories;
    health = new_health_tracker s.judge_failure_threshold s.judge_cooldown_seconds;
    max_attempts = attempts_or_default s.judge_max_attempts;
    models = record { model_status = []; model_stats = [] };
  }

  -- The limiter, the judges and the models stay as they are, and so does the limit of the budget where
  -- the new one is not positive.
  unfoldable pub update_policy : Strings → Settings F → Router F → Router F
  unfolding Threshold.new new_registry new_persistent new_engine set_max_cost_per_session
  update_policy st s r = record r {
    settings = s;
    budget = set_max_cost_per_session r.budget s.max_cost_per_session;
    threshold = Threshold.new s.target_escalation_rate s.rolling_window_size s.initial_threshold;
    cycles = new_registry (pos 1_000) s.cycle_detection_threshold s.cycle_detection_window_size;
    cache =
        new_persistent s.semantic_cache_min_samples s.semantic_cache_confidence
          s.semantic_cache_ttl_seconds;
    redactor =
        new_engine st s.redaction_mode s.redaction_strategy s.redaction_salt s.redaction_categories;
  }

  unfoldable pub reset_escalation : Router F → Router F
  unfolding Threshold.reset
  reset_escalation r = record r { threshold = Threshold.reset none r.threshold }

  unfoldable pub reset_semantic_cache : World F → World F
  unfolding persistent_reset
  reset_semantic_cache w =
      let (cache, store) = persistent_reset (w.router.cache, w.cache_store) in
      record w { router = record (w.router) { cache = cache }; cache_store = store }

  -- In nanoseconds.
  unfoldable pub conditional_judge_timeout : Settings F → ℤ
  conditional_judge_timeout s =
      let timeout = fl.trunc (fl.mul s.conditional_judge_timeout (fl.of_int (pos 1_000_000_000))) in
      if leb_ℤ timeout (pos 0) then pos 15_000_000_000 else timeout

module _ {F : Type 0} ⦃fl : Float64 F⦄ (o : IsOrdered F) where
  -- A new policy with the kill switch on and a limit that is a finite number keeps the budget secured,
  -- whatever the limit is.
  pub update_policy-IsSecured :
      (st : Strings) (s : Settings F) (w : World F)
      → s.enable_budget_kill_switch ≡ true
      → IsFinite s.max_cost_per_session
      → IsSecured w.db w.router.settings w.router.budget
      → let r = update_policy st s w.router in IsSecured w.db r.settings r.budget
  unfolding update_policy set_max_cost_per_session
  update_policy-IsSecured st s w on finite h =
      elim (Bool-cases (fl.lt (fl.lit 0) s.max_cost_per_session)) [
        | inl positive ↦ rw positive (record {
          kill_switch = on;
          not_negative = le_of_lt o (fl.lit 0) s.max_cost_per_session positive;
          finite = finite;
          safe = h.safe;
        })
        | inr other ↦ rw other (record {
          kill_switch = on;
          not_negative = h.not_negative;
          finite = h.finite;
          safe = h.safe;
        })
      ]
