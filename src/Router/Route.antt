-- ===== src/Router/Route.antt =====
-- Route of internal/router/router.go, in the order of its steps: the session, the cache, the
-- reservation, the cycle, the judge, the decision, the calls. Router/Finish has the steps after a
-- reply. A request runs by itself here: what other requests do to the sessions table stands in the
-- turns of the database.
use llmsentinel_router.Prelude.{
  ℕ, ◌*◌, String, ◌==◌, Bool, true, false, not, ◌&&◌, Option, none, some, List, if◌then◌else◌,
  length,
}
use llmsentinel_router.Prelude.Int.{pos}
use llmsentinel_router.Prelude.Float.{Float64}
use llmsentinel_router.Prelude.Text.{◌<>◌}
use llmsentinel_router.Exec.{
  Error, deadline_exceeded, Result, ok, err, Exec, pure, raise, ◌>>=◌, ◌>>◌,
}
use llmsentinel_router.Config.{SentinelConfig}
use llmsentinel_router.Budget
use llmsentinel_router.Budget.{require_budget}
use llmsentinel_router.Threshold.{is_strict_mode}
use llmsentinel_router.Cycle
use llmsentinel_router.Cycle.{detect_prompt, write_back, clear_last_response, Detector}
use llmsentinel_router.Semantic.Persistent.{persistent_route}
use llmsentinel_router.Judge.Registry.{Verdict, evaluate}
use llmsentinel_router.Router.Decision.{decide_route, build_reason}
use llmsentinel_router.Router.Calls.{Reply, Provider, call_candidates}
use llmsentinel_router.Router.World.{
  Message, Router, World, Request, Outside, shown, on_db, judges_for,
}

-- What Route knows of a request before it decides.
pub record Draft (F : Type 0) : Type 0 where
  pub id : String
  pub prompt : String
  pub messages : List Message
  pub cached : String × F × Bool
  pub reserved : F
  pub detector : Detector
  pub cycle_detected : Bool

-- A decision: the verdict that it rests on, whether a judge was asked, the route and the reason.
pub record Decided (F : Type 0) : Type 0 where
  pub verdict : Verdict F
  pub judge_invoked : Bool
  pub route : String
  pub reason : String

-- The decision that a reply was called under, with the tier of the result.
pub record Called (F : Type 0) : Type 0 where
  pub decided : Decided F
  pub tier : String
  pub reply : Reply F
  pub model : String

abbrev pub or_text : String → String → String
or_text s d = if s == "" then d else s

-- The group that callCandidates is given for a route, and the tier of the result.
abbrev pub group_of : String → String
group_of route = if route == "strong" then "strong_tier" else "fast_tier"

abbrev pub tier_of : String → String
tier_of route = if route == "strong" then "strong" else "weak"

module _ {F : Type 0} ⦃fl : Float64 F⦄ where
  -- estimatedWorstCaseCost
  abbrev pub worst_case : F
  worst_case = fl.lit 50_000

  abbrev pub nobody_asked : F → String → String → Verdict F
  nobody_asked score scope reasoning = record {
    complexity_score = score;
    impact_scope = scope;
    reasoning = reasoning;
    judge_id = "";
  }

  unfoldable pub look_up :
      Outside F → SentinelConfig F → String → List Message → Exec (World F) (String × F × Bool)
  unfolding persistent_route
  look_up out cfg prompt messages w =
      let (cs, route, conf, sure) =
        persistent_route (out.hash_payload prompt messages) out.looked_up
          (w.router.cache, w.cache_store) in
      if w.router.settings.semantic_cache_enabled && cfg.semantic_cache_enabled
      then (
        ok (route, conf, sure),
        record w { router = record (w.router) { cache = cs.0 }; cache_store = cs.1 },
      )
      else (ok ("", fl.lit 0, false), w)

  -- The reservation, which is 0 without the kill switch.
  unfoldable pub reserve : Outside F → String → Exec (World F) F
  unfolding require_budget on_db ◌>>=◌
  reserve out id w =
      if w.router.settings.enable_budget_kill_switch
      then (on_db (require_budget w.router.budget id worst_case out.created) >> pure worst_case) w
      else (ok (fl.lit 0), w)

  unfoldable pub detect : Outside F → String → String → Exec (World F) (Detector × Bool)
  unfolding Cycle.get detect_prompt
  detect out id prompt w =
      let (cycles, d) = Cycle.get id w.router.cycles in
      (
        ok (d, w.router.settings.enable_cycle_detection && detect_prompt out.digest prompt d),
        record w { router = record (w.router) { cycles = cycles } },
      )

  unfoldable pub ask : Outside F → SentinelConfig F → String → Exec (World F) (Verdict F)
  unfolding evaluate judges_for
  ask out cfg prompt w =
      let (v, health) =
        evaluate (judges_for out prompt) (some cfg) w.router.max_attempts out.judged
          w.router.health in
      (ok v, record w { router = record (w.router) { health = health } })

  -- The verdict before the first decision, and whether a judge was asked for it.
  unfoldable pub first_verdict :
      Outside F → SentinelConfig F → Option Bool → Draft F → Exec (World F) (Verdict F × Bool)
  unfolding ask ◌>>=◌
  first_verdict out cfg use_judge d =
      let (route, conf, sure) = d.cached in
      if sure
      then (if route == "strong"
          then pure (
            nobody_asked (fl.lit 9_500) "HIGH" (
                "Judge skipped - cache confident (conf="
                <> out.conf_text conf
                <> ") recommends strong model"),
            false,
          )
          else pure (
            nobody_asked (fl.lit 0) "LOW" (
                "Judge skipped - cache confident (conf="
                <> out.conf_text conf
                <> ") recommends weak model"),
            false,
          ))
      else elim use_judge [
        | none ↦ pure (
          nobody_asked (fl.lit 0) "LOW"
              "Judge deferred - conditional mode (will call if weak model is slow)",
          false,
        )
        | some b ↦
            if b
            then (ask out cfg d.prompt >>= λ v. pure (v, true))
            else pure
                (nobody_asked (fl.lit 0) "LOW" "Judge skipped by request (use_judge=false)", false)
      ]

  unfoldable pub decide : Outside F → Draft F → Router F → Verdict F → Bool → Decided F
  unfolding decide_route build_reason is_strict_mode
  decide out d r v invoked =
      let t = r.threshold.threshold in
      let strict = r.settings.enable_dynamic_threshold && is_strict_mode r.threshold in
      record {
        verdict = v;
        judge_invoked = invoked;
        route = decide_route v.complexity_score v.impact_scope t strict d.cycle_detected;
        reason =
            out.reason_text
              (build_reason v.complexity_score v.impact_scope t strict d.cycle_detected);
      }

  -- One callCandidates, with twice the words of the prompt as the estimate.
  unfoldable pub call_tier :
      Provider F
      → (ℕ → ℕ)
      → Outside F
      → SentinelConfig F
      → String
      → String
      → Exec (World F) (Reply F × String)
  unfolding call_candidates
  call_tier p clock out cfg group prompt w =
      let estimated = pos (length (out.strings.fields prompt) * 2) in
      let (r, limiter) =
        call_candidates p cfg group estimated clock w.router.models w.router.limiter in
      (r, record w { router = record (w.router) { limiter = limiter } })

  -- contextTimedOut, after cancelCall.
  unfoldable pub timed_out : Outside F → Error → Bool
  timed_out out deadline_exceeded = true
  timed_out out _ = out.expired

  abbrev pub called : Decided F → Reply F × String → Called F
  called decided (reply, model) = record {
    decided = decided;
    tier = tier_of decided.route;
    reply = reply;
    model = model;
  }

  -- The decision after a timeout.
  unfoldable pub late : Outside F → Draft F → Router F → Verdict F → Decided F
  unfolding decide
  late out d r v =
      let decided = decide out d r v true in
      record decided {
        reason = "Weak model exceeded conditional judge timeout; " <> decided.reason;
      }

  -- The second call, with a judge's decision. A weak route keeps the group of the first call, which is
  -- the weak one.
  unfoldable pub call_as_judged :
      Outside F → SentinelConfig F → Draft F → Verdict F → Exec (World F) (Called F)
  unfolding late call_tier ◌>>=◌
  call_as_judged out cfg d v w =
      let decided = late out d w.router v in
      (call_tier out.second out.second_clock out cfg (group_of decided.route) d.prompt >>= λ answer.
      pure (called decided answer))
        w

  unfoldable pub call_again : Outside F → SentinelConfig F → Draft F → Exec (World F) (Called F)
  unfolding ask call_as_judged ◌>>=◌
  call_again out cfg d = ask out cfg d.prompt >>= call_as_judged out cfg d

  -- What becomes of the first call: a timeout of a conditional one leads to the second.
  unfoldable pub after_call :
      Outside F
      → SentinelConfig F
      → Draft F
      → Decided F
      → Bool
      → Result (Reply F × String)
      → Exec (World F) (Called F)
  unfolding call_again timed_out
  after_call out cfg d decided conditional (ok (reply, model)) =
      pure (called decided (reply, model))
  after_call out cfg d decided conditional (err e) =
      if conditional && timed_out out e then call_again out cfg d else raise e

  unfoldable pub call_models :
      Outside F → SentinelConfig F → Option Bool → Draft F → Decided F → Exec (World F) (Called F)
  unfolding call_tier after_call
  call_models out cfg use_judge d decided w =
      let deferred : Bool = elim use_judge [ none ↦ true | some b ↦ false ] in
      let conditional = deferred && not d.cached.2 && decided.route == "weak" in
      let (r, w') =
        call_tier out.first out.first_clock out cfg (group_of decided.route) d.prompt w in
      after_call out cfg d decided conditional r w'

  -- The detector forgets the last response where no model has answered.
  unfoldable pub forget : Draft F → World F → World F
  unfolding write_back clear_last_response
  forget d w = record w {
    router = record (w.router) {
      cycles = write_back d.id (clear_last_response d.detector) w.router.cycles;
    };
  }

  unfoldable pub or_forget : Draft F → Result (Called F) × World F → Result (Called F) × World F
  unfolding forget
  or_forget d (ok c, w) = (ok c, w)
  or_forget d (err e, w) = (err e, forget d w)

  abbrev pub drafted :
      String → String × List Message → String × F × Bool → F → Detector × Bool → Draft F
  drafted id (prompt, messages) cached reserved (detector, cycle) = record {
    id = id;
    prompt = prompt;
    messages = messages;
    cached = cached;
    reserved = reserved;
    detector = detector;
    cycle_detected = cycle;
  }

  -- The steps before the first verdict.
  unfoldable pub draft : Outside F → SentinelConfig F → Request → Exec (World F) (Draft F)
  unfolding on_db look_up reserve detect shown ◌>>=◌
  draft out cfg rq w₀ =
      let id = or_text rq.session_id out.session_id in
      let (prompt, messages) = shown out w₀.router.redactor rq in
      (do
        session ← on_db (
            Budget.get_or_create_session w₀.router.budget id rq.client_ip (or_text rq.tier "free")
              out.created)
        cached ← look_up out cfg prompt messages
        reserved ← reserve out id
        found ← detect out id prompt
        pure (drafted id (prompt, messages) cached reserved found))
        w₀

  -- The decision and the calls, for a verdict.
  unfoldable pub route_by :
      Outside F
      → SentinelConfig F
      → Option Bool
      → Draft F
      → Verdict F × Bool
      → Exec (World F) (Called F)
  unfolding decide call_models or_forget
  route_by out cfg use_judge d (v, invoked) w =
      or_forget d (call_models out cfg use_judge d (decide out d w.router v invoked) w)

  -- From the draft to a reply.
  unfoldable pub routed :
      Outside F → SentinelConfig F → Option Bool → Draft F → Exec (World F) (Called F)
  unfolding first_verdict route_by ◌>>=◌
  routed out cfg use_judge d = first_verdict out cfg use_judge d >>= route_by out cfg use_judge d
