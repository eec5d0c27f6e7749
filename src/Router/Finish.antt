-- ===== src/Router/Finish.antt =====
-- Route of internal/router/router.go, from a reply on: the detector, the cost, the threshold, the logs,
-- the cache, the figures of the model. And the whole of it.
use Prim.Native.String.{slice}
use llmsentinel_router.Prelude.{String, ◌==◌, Bool, not, ◌&&◌, Option, none, some, if◌then◌else◌}
use llmsentinel_router.Prelude.Float.{Float64}
use llmsentinel_router.Exec.{config_not_loaded, ok, Exec, raise, ◌>>=◌, ◌>>◌}
use llmsentinel_router.Storage.Database.{Session}
use llmsentinel_router.Storage.Sessions.{nullable_string, get_session_required}
use llmsentinel_router.Storage.Decisions.{RoutingDecision}
use llmsentinel_router.Storage.Logs.{
  insert_cycle_detection, insert_escalation_log, insert_escalation_trace, log_decision,
}
use llmsentinel_router.Config.{SentinelConfig}
use llmsentinel_router.Budget.{settle_cost, add_cost}
use llmsentinel_router.Threshold.{add_decision, adjust, rate_locked}
use llmsentinel_router.Cycle
use llmsentinel_router.Cycle.{write_back}
use llmsentinel_router.Rate.{record_request}
use llmsentinel_router.Semantic.Persistent.{persistent_record}
use llmsentinel_router.Judge.Registry.{Verdict}
use llmsentinel_router.Router.Decision.{final_cost}
use llmsentinel_router.Router.Models.{record_model_runtime}
use llmsentinel_router.Router.Calls.{Reply}
use llmsentinel_router.Router.World.{World, Request, Outside, logged_as, short_hash, on_db}
use llmsentinel_router.Router.Route.{Draft, Decided, Called, draft, routed}

-- Result of the package.
pub record Answer (F : Type 0) : Type 0 where
  pub model_used : String
  pub reply : Reply F
  pub verdict : Verdict F
  pub cost : F
  pub cost_source : String
  pub computed_cost : Option F
  pub session_cost : F
  pub cycle_detected : Bool
  pub decision_reason : String
  pub tier : String
  pub use_judge : Option Bool

module _ {F : Type 0} ⦃fl : Float64 F⦄ where
  -- detector.Add and InsertCycleDetection, whose error is dropped.
  unfoldable pub remember : Outside F → Draft F → Reply F → World F → World F
  unfolding Cycle.add write_back insert_cycle_detection short_hash
  remember out d reply w = if reply.content == "" then w else record w {
    router = record (w.router) {
      cycles =
          write_back d.id (Cycle.add out.digest d.prompt reply.content d.detector) w.router.cycles;
    };
    logs =
        insert_cycle_detection
          (record {
            session_id = d.id;
            prompt_hash = short_hash out d.prompt;
            response_hash = short_hash out reply.content;
          })
          out.logged w.logs;
  }

  -- The cost of the reply, on the session.
  unfoldable pub settle : Draft F → F → Exec (World F) (Unit {0})
  unfolding on_db settle_cost add_cost
  settle d cost w =
      if w.router.settings.enable_budget_kill_switch
      then on_db (settle_cost d.id d.reserved cost) w
      else on_db (add_cost d.id cost) w

  -- AddDecision and Adjust, and the log of a new threshold, whose error is dropped.
  unfoldable pub learn : Outside F → Draft F → Decided F → World F → World F
  unfolding add_decision adjust rate_locked insert_escalation_log
  learn out d decided w =
      let before = w.router.threshold.threshold in
      let (t, after, changed) =
        adjust (add_decision (decided.route == "strong") w.router.threshold) in
      if not w.router.settings.enable_dynamic_threshold then w else record w {
        router = record (w.router) { threshold = t };
        logs =
            if changed
            then insert_escalation_log
                (record {
                  session_id = d.id;
                  escalation_rate = rate_locked t.window;
                  threshold_before = before;
                  threshold_after = after;
                  reason = "dynamic_threshold_adjusted";
                })
                out.logged w.logs
            else w.logs;
      }

  unfoldable pub decision_row :
      Outside F → Request → Draft F → Called F → World F → RoutingDecision F
  unfolding final_cost short_hash logged_as nullable_string
  decision_row out rq d c w =
      let (cost, source, computed) = final_cost c.reply.cost in
      record {
        decision_id = 0;
        session_id = d.id;
        request_id = out.request_id;
        timestamp = out.logged;
        model_used = c.model;
        complexity_score = c.decided.verdict.complexity_score;
        cost_incurred = cost;
        cost_source = source;
        computed_cost = computed;
        prompt_hash = short_hash out (logged_as out w.router.redactor rq).0;
        impact_scope = nullable_string c.decided.verdict.impact_scope;
        reason = nullable_string c.decided.reason;
        input_tokens = c.reply.prompt_tokens;
        output_tokens = c.reply.completion_tokens;
        total_tokens = c.reply.total_tokens;
        request_latency_ms = out.request_latency;
        model_latency_ms = out.model_latency;
        judge_latency_ms = some (fl.lit 0);
      }

  -- InsertRoutingDecision, whose error ends Route.
  unfoldable pub log : Outside F → Request → Draft F → Called F → Exec (World F) (Unit {0})
  unfolding decision_row log_decision
  log out rq d c w =
      let (result, logs) = log_decision (decision_row out rq d c w) w.logs in
      (result, record w { logs = logs })

  -- The trace of a strong route, whose error is dropped.
  unfoldable pub trace : Outside F → Draft F → Called F → World F → World F
  unfolding insert_escalation_trace nullable_string
  trace out d c w =
      if c.decided.route == "strong"
      then record w {
        logs =
            insert_escalation_trace
              (record {
                session_id = d.id;
                request_id = out.request_id;
                model_used = c.model;
                complexity_score = c.decided.verdict.complexity_score;
                impact_scope = nullable_string c.decided.verdict.impact_scope;
                reason = nullable_string c.decided.reason;
              })
              out.logged w.logs;
      }
      else w

  -- The record in the semantic cache, of what the logs show.
  unfoldable pub cache_record :
      Outside F → SentinelConfig F → Request → Draft F → Called F → World F → World F
  unfolding persistent_record logged_as final_cost
  cache_record out cfg rq d c w =
      let (prompt, messages) = logged_as out w.router.redactor rq in
      let (cache, store) =
        persistent_record (out.hash_payload prompt messages) (out.hash_payload "" messages)
          (slice prompt 0 500) c.model c.decided.route out.request_latency c.decided.judge_invoked
          (final_cost c.reply.cost).0 c.reply.total_tokens out.answered out.logged
          (w.router.cache, w.cache_store) in
      if w.router.settings.semantic_cache_enabled
        && cfg.semantic_cache_enabled
        && not d.cycle_detected
      then record w { router = record (w.router) { cache = cache }; cache_store = store }
      else w

  -- The limiter and the figures of the model.
  unfoldable pub count_call : Outside F → Called F → World F → World F
  unfolding record_request record_model_runtime final_cost
  count_call out c w = record w {
    router = record (w.router) {
      limiter = record_request c.model c.reply.total_tokens out.answered w.router.limiter;
      models =
          record_model_runtime c.model c.reply.total_tokens (final_cost c.reply.cost).0 out.answered
            w.router.models;
    };
  }

  unfoldable pub answer : Request → Draft F → Called F → Session F → Answer F
  unfolding final_cost
  answer rq d c session = record {
    model_used = c.model;
    reply = c.reply;
    verdict = c.decided.verdict;
    cost = (final_cost c.reply.cost).0;
    cost_source = (final_cost c.reply.cost).1;
    computed_cost = (final_cost c.reply.cost).2;
    session_cost = session.current_cost;
    cycle_detected = d.cycle_detected;
    decision_reason = c.decided.reason;
    tier = c.tier;
    use_judge = rq.use_judge;
  }

  -- The steps of an answer: the payment, the report in the logs, and the rest, which cannot fail.
  unfoldable pub pay : Outside F → Draft F → Called F → Exec (World F) (Unit {0})
  unfolding remember settle final_cost
  pay out d c w = settle d (final_cost c.reply.cost).0 (remember out d c.reply w)

  unfoldable pub report : Outside F → Request → Draft F → Called F → Exec (World F) (Unit {0})
  unfolding learn log
  report out rq d c w = log out rq d c (learn out d c.decided w)

  unfoldable pub conclude :
      Outside F
      → SentinelConfig F
      → Request
      → Draft F
      → Called F
      → Session F
      → Exec (World F) (Answer F)
  unfolding trace cache_record count_call answer
  conclude out cfg rq d c session w =
      (ok (answer rq d c session), count_call out c (cache_record out cfg rq d c (trace out d c w)))

  unfoldable pub finish :
      Outside F → SentinelConfig F → Request → Draft F → Called F → Exec (World F) (Answer F)
  unfolding pay on_db report conclude ◌>>=◌
  finish out cfg rq d c = do
    pay out d c
    session ← on_db (get_session_required d.id)
    report out rq d c
    conclude out cfg rq d c session

  unfoldable pub route_on : Outside F → Request → SentinelConfig F → Exec (World F) (Answer F)
  unfolding draft routed finish ◌>>=◌
  route_on out rq cfg = do
    d ← draft out cfg rq
    c ← routed out cfg rq.use_judge d
    finish out cfg rq d c

  abbrev pub with_config :
      Outside F → Request → Option (SentinelConfig F) → Exec (World F) (Answer F)
  with_config out rq none = raise config_not_loaded
  with_config out rq (some cfg) = route_on out rq cfg

  unfoldable pub route : Outside F → Request → Exec (World F) (Answer F)
  unfolding route_on
  route out rq w = with_config out rq w.router.config w
