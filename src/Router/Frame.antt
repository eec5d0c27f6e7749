-- ===== src/Router/Frame.antt =====
-- What the steps of Route leave as it is.
use llmsentinel_router.Prelude.{
  ℕ, String, ◌==◌, ◌≡◌, refl, ap, ◌∙◌, Bool, true, ◌&&◌, Option, none, some,
}
use llmsentinel_router.Prelude.Float.{Float64}
use llmsentinel_router.Exec.{Result, ok, err, Exec, pure}
use llmsentinel_router.Exec.Preserves.{
  Preserves, Preserves-bind, Preserves-pure, Preserves-raise, Preserves-if,
}
use llmsentinel_router.Storage.Database.{Db}
use llmsentinel_router.Storage.Logs.{Logs}
use llmsentinel_router.Config.{SentinelConfig}
use llmsentinel_router.Config.Settings.{Settings}
use llmsentinel_router.Budget
use llmsentinel_router.Rate.{Limiter}
use llmsentinel_router.Redaction.{Engine}
use llmsentinel_router.Judge.Registry.{Verdict}
use llmsentinel_router.Router.Models.{Models}
use llmsentinel_router.Router.Calls.{Reply, Provider}
use llmsentinel_router.Router.World.{World, Outside}
use llmsentinel_router.Router.Route.{
  Draft, Decided, Called, ask, first_verdict, decide, call_tier, timed_out, called, late,
  call_as_judged, call_again, after_call, call_models, forget, or_forget, route_by, routed,
  group_of,
}

module _ {F : Type 0} where
  -- The parts that no step between the draft and a reply touches.
  abbrev pub outside_calls :
      World F → Db F × Logs F × Settings F × Budget.Manager F × Engine × Models F
  outside_calls w =
      (w.db, w.logs, w.router.settings, w.router.budget, w.router.redactor, w.router.models)

  -- And those that no step before a call touches.
  abbrev pub outside_verdict :
      World F → (Db F × Logs F × Settings F × Budget.Manager F × Engine × Models F) × Limiter F
  outside_verdict w = (outside_calls w, w.router.limiter)

  outside_calls-Preserves :
      {A : Type 0} (m : Exec (World F) A) → Preserves outside_verdict m → Preserves outside_calls m
  outside_calls-Preserves m p = record { at = λ w. ap (λ x. x.0) (p.at w) }

module _ {F : Type 0} ⦃fl : Float64 F⦄ where
  pub ask-Preserves :
      (out : Outside F) (cfg : SentinelConfig F) (prompt : String)
      → Preserves outside_verdict (ask out cfg prompt)
  unfolding ask
  ask-Preserves out cfg prompt = record { at = λ w. refl }

  call_tier-Preserves :
      (p : Provider F) (clock : ℕ → ℕ) (out : Outside F) (cfg : SentinelConfig F)
      (group prompt : String)
      → Preserves outside_calls (call_tier p clock out cfg group prompt)
  unfolding call_tier
  call_tier-Preserves p clock out cfg group prompt = record { at = λ w. refl }

  pub first_verdict-Preserves :
      (out : Outside F) (cfg : SentinelConfig F) (use_judge : Option Bool) (d : Draft F)
      → Preserves outside_verdict (first_verdict out cfg use_judge d)
  unfolding first_verdict
  first_verdict-Preserves out cfg none d =
      Preserves-if outside_verdict d.cached.2
        (Preserves-if outside_verdict (d.cached.0 == "strong") (Preserves-pure outside_verdict _)
          (Preserves-pure outside_verdict _))
        (Preserves-pure outside_verdict _)
  first_verdict-Preserves out cfg (some b) d =
      Preserves-if outside_verdict d.cached.2
        (Preserves-if outside_verdict (d.cached.0 == "strong") (Preserves-pure outside_verdict _)
          (Preserves-pure outside_verdict _))
        (Preserves-if outside_verdict b
          (Preserves-bind outside_verdict (ask out cfg d.prompt) (λ v. pure (v, true))
            (ask-Preserves out cfg d.prompt) (λ v. Preserves-pure outside_verdict (v, true)))
          (Preserves-pure outside_verdict _))

  call_as_judged-Preserves :
      (out : Outside F) (cfg : SentinelConfig F) (d : Draft F) (v : Verdict F)
      → Preserves outside_calls (call_as_judged out cfg d v)
  unfolding call_as_judged
  call_as_judged-Preserves out cfg d v = record {
    at = λ w.
        let decided = late out d w.router v in
        let p =
          Preserves-bind {B = Called F} outside_calls
            (call_tier out.second out.second_clock out cfg (group_of decided.route) d.prompt)
            (λ answer. pure (called decided answer))
            (call_tier-Preserves out.second out.second_clock out cfg (group_of decided.route)
              d.prompt)
            (λ answer. Preserves-pure outside_calls (called decided answer)) in
        p.at w;
  }

  call_again-Preserves :
      (out : Outside F) (cfg : SentinelConfig F) (d : Draft F)
      → Preserves outside_calls (call_again out cfg d)
  unfolding call_again
  call_again-Preserves out cfg d =
      Preserves-bind outside_calls (ask out cfg d.prompt) (call_as_judged out cfg d)
        (outside_calls-Preserves (ask out cfg d.prompt) (ask-Preserves out cfg d.prompt))
        (call_as_judged-Preserves out cfg d)

  after_call-Preserves :
      (out : Outside F) (cfg : SentinelConfig F) (d : Draft F) (decided : Decided F)
      (conditional : Bool) (r : Result (Reply F × String))
      → Preserves outside_calls (after_call out cfg d decided conditional r)
  unfolding after_call
  after_call-Preserves out cfg d decided conditional (ok (reply, model)) =
      Preserves-pure outside_calls _
  after_call-Preserves out cfg d decided conditional (err e) =
      Preserves-if outside_calls (conditional && timed_out out e) (call_again-Preserves out cfg d)
        (Preserves-raise outside_calls e)

  call_models-Preserves :
      (out : Outside F) (cfg : SentinelConfig F) (use_judge : Option Bool) (d : Draft F)
      (decided : Decided F)
      → Preserves outside_calls (call_models out cfg use_judge d decided)
  unfolding call_models
  call_models-Preserves out cfg use_judge d decided = record {
    at = λ w.
        let answer =
          call_tier out.first out.first_clock out cfg (group_of decided.route) d.prompt w in
        (after_call-Preserves out cfg d decided _ answer.0).at answer.1
        ∙ (call_tier-Preserves out.first out.first_clock out cfg (group_of decided.route)
              d.prompt).at
            w;
  }

  or_forget-outside :
      (d : Draft F) (r : Result (Called F) × World F)
      → outside_calls (or_forget d r).1 ≡ outside_calls r.1
  unfolding or_forget forget
  or_forget-outside d (ok c, w) = refl
  or_forget-outside d (err e, w) = refl

  route_by-Preserves :
      (out : Outside F) (cfg : SentinelConfig F) (use_judge : Option Bool) (d : Draft F)
      (v : Verdict F × Bool)
      → Preserves outside_calls (route_by out cfg use_judge d v)
  unfolding route_by
  route_by-Preserves out cfg use_judge d (v, invoked) = record {
    at = λ w.
        let decided = decide out d w.router v invoked in
        or_forget-outside d (call_models out cfg use_judge d decided w)
        ∙ (call_models-Preserves out cfg use_judge d decided).at w;
  }

  pub routed-Preserves :
      (out : Outside F) (cfg : SentinelConfig F) (use_judge : Option Bool) (d : Draft F)
      → Preserves outside_calls (routed out cfg use_judge d)
  unfolding routed
  routed-Preserves out cfg use_judge d =
      Preserves-bind outside_calls (first_verdict out cfg use_judge d)
        (route_by out cfg use_judge d)
        (outside_calls-Preserves (first_verdict out cfg use_judge d)
          (first_verdict-Preserves out cfg use_judge d))
        (route_by-Preserves out cfg use_judge d)
