-- ===== src/Router/Answered.antt =====
-- What Route of internal/router/router.go promises of an answer: where its reply comes from, and the
-- row of it in the log of decisions.
use llmsentinel_router.Prelude.{
  ℕ, ◌*◌, String, ◌==◌, ◌≡◌, refl, ap, sym, ◌∙◌, subst, Bool, true, false, some, if◌then◌else◌, inl,
  inr, length, Option-cases,
}
use llmsentinel_router.Prelude.Int.{ℤ, pos}
use llmsentinel_router.Prelude.Float.{Float64}
use llmsentinel_router.Exec.{ok, >>=-eq-ok, ok_injective}
use llmsentinel_router.Storage.Sessions.{get_session_required}
use llmsentinel_router.Storage.Decisions.{RoutingDecision, insert_routing_decision}
use llmsentinel_router.Config.{SentinelConfig}
use llmsentinel_router.Rate.{Limiter}
use llmsentinel_router.Router.Models.{candidates}
use llmsentinel_router.Router.Calls.{Provider}
use llmsentinel_router.Router.Served.{IsServed}
use llmsentinel_router.Router.World.{World, Request, Outside, shown}
use llmsentinel_router.Router.Route.{Draft, Called, draft, routed, group_of, tier_of, or_text}
use llmsentinel_router.Router.Finish.{
  Answer, learn, decision_row, answer, report, conclude, finish, route_on, with_config, route,
}
use llmsentinel_router.Router.Frame.{outside_calls, routed-Preserves}
use llmsentinel_router.Router.Reached.{start, estimate_of, IsCall, IsReached, routed-IsReached}
use llmsentinel_router.Router.Inversion.{IsDrafted, draft-IsDrafted, IsFinished, finish-IsFinished}
use llmsentinel_router.Router.Logged.{
  decisions, on_db-Preserves, learn-decisions, pay-Preserves, conclude-Preserves, log-decisions,
}

group_of-tier_of : (r : String) → group_of (tier_of r) ≡ group_of r
group_of-tier_of r = of_test (r == "strong")
  where
    of_test :
        (b : Bool)
        → group_of (if b then "strong" else "weak") ≡ (if b then "strong_tier" else "fast_tier")
    of_test true = refl
    of_test false = refl

tier_strong : (r : String) → r ≡ "strong" → tier_of r ≡ "strong"
tier_strong r h = subst (λ r. tier_of r ≡ "strong") (sym h) refl

module _ {F : Type 0} ⦃fl : Float64 F⦄ where
  -- Twice the number of words of the prompt that is shown.
  abbrev pub size_of : Outside F → Request → World F → ℤ
  size_of out rq w = pos (length (out.strings.fields (shown out w.router.redactor rq).0) * 2)

  -- An answer, of a request that found a world `w` and left `w'`: its reply is that of the first or of
  -- the second call, from a candidate of its tier; a cycle makes the tier the strong one; and the log of
  -- decisions has one new row, with the session, the model, the cost and the score of the answer.
  pub record IsAnswered (out : Outside F) (cfg : SentinelConfig F) (rq : Request) (w : World F)
      (a : Answer F) (w' : World F) : Type 0 where
    pub provider : Provider F
    pub clock : ℕ → ℕ
    pub limiter : Limiter F
    pub which :
        IsCall out cfg (size_of out rq w) w.router.models w.router.limiter provider clock limiter
    pub served :
        IsServed provider cfg
          (size_of out rq w)
          clock
          0
          limiter
          (candidates cfg (group_of a.tier) w.router.models)
          a.reply
          a.model_used
    pub cycle : a.cycle_detected ≡ true → a.tier ≡ "strong"
    pub row : RoutingDecision F
    pub recorded : w'.logs.decisions ≡ insert_routing_decision row w.logs.decisions
    pub row_session : row.session_id ≡ or_text rq.session_id out.session_id
    pub row_model : row.model_used ≡ a.model_used
    pub row_cost : row.cost_incurred ≡ a.cost
    pub row_score : row.complexity_score ≡ a.verdict.complexity_score

  report_ok :
      (out : Outside F) (rq : Request) (d : Draft F) (c : Called F) (w w' : World F)
      → report out rq d c w ≡ (ok tt, w')
      → w'.logs.decisions
        ≡ insert_routing_decision
            (decision_row out rq d c (learn out d c.decided w))
            w.logs.decisions
  unfolding report
  report_ok out rq d c w w' h =
      let before = learn out d c.decided w in
      elim (log-decisions out rq d c before) [
        | inl (fine, grown) ↦
            ap (λ x. decisions x.1) (sym h)
            ∙ grown
            ∙ ap (insert_routing_decision (decision_row out rq d c before))
                (learn-decisions out d c.decided w)
        | inr (e, failed, rest) ↦ absurd (cc (failed, ap (λ x. x.0) h))
      ]

  finished-IsAnswered :
      (out : Outside F) (cfg : SentinelConfig F) (rq : Request) (w w₁ w₂ w' : World F) (d : Draft F)
      (c : Called F) (a : Answer F)
      → IsDrafted out rq w d w₁
      → IsReached out cfg d (start w₁) c
      → outside_calls w₂ ≡ outside_calls w₁
      → IsFinished out cfg rq d c w₂ a w'
      → IsAnswered out cfg rq w a w'
  unfolding conclude answer decision_row
  finished-IsAnswered out cfg rq w w₁ w₂ w' d c a drafted reached same finished =
      let row = decision_row out rq d c (learn out d c.decided finished.read) in
      subst (λ a. IsAnswered out cfg rq w a w') (ok_injective (ap (λ x. x.0) finished.concluded))
        (record {
          provider = reached.provider;
          clock = reached.clock;
          limiter = reached.limiter;
          which = which;
          served = served;
          cycle = λ h. reached.tier ∙ tier_strong c.decided.route (reached.cycle h);
          row = row;
          recorded =
              ap (λ x. decisions x.1) (sym finished.concluded)
              ∙ (conclude-Preserves out cfg rq d c finished.session).at finished.logged
              ∙ report_ok out rq d c finished.read finished.logged finished.written
              ∙ ap (insert_routing_decision row) before;
          row_session = drafted.id;
          row_model = refl;
          row_cost = refl;
          row_score = refl;
        })
    where
      before : decisions finished.read ≡ decisions w
      before =
          ap (λ x. decisions x.1) (sym finished.row)
          ∙ (on_db-Preserves (get_session_required d.id)).at finished.paid
          ∙ ap (λ x. decisions x.1) (sym finished.settled)
          ∙ (pay-Preserves out d c).at w₂
          ∙ ap (λ p. p.1.decisions) same
          ∙ ap (λ p. p.0.decisions) drafted.rest

      size : estimate_of out d ≡ size_of out rq w
      size = ap (λ p. pos (length (out.strings.fields p) * 2)) drafted.prompt

      began : start w₁ ≡ start w
      began = ap (λ p. (p.3, p.4)) drafted.rest

      which :
          IsCall out cfg
            (size_of out rq w)
            w.router.models
            w.router.limiter
            reached.provider
            reached.clock
            reached.limiter
      which =
          subst (λ (n, s). IsCall out cfg n s.0 s.1 reached.provider reached.clock reached.limiter)
            (ap (λ n. (n, start w₁)) size ∙ ap (λ s. (size_of out rq w, s)) began) reached.which

      served :
          IsServed reached.provider cfg
            (size_of out rq w)
            reached.clock
            0
            reached.limiter
            (candidates cfg (group_of c.tier) w.router.models)
            c.reply
            c.model
      served =
          subst
            (λ (n, g, m).
              IsServed reached.provider cfg n reached.clock 0 reached.limiter (candidates cfg g m)
                c.reply c.model)
            (ap (λ n. (n, group_of c.decided.route, w₁.router.models)) size
              ∙ ap (λ g. (size_of out rq w, g, w₁.router.models))
                  (sym (ap group_of reached.tier ∙ group_of-tier_of c.decided.route))
              ∙ ap (λ s. (size_of out rq w, group_of c.tier, s.0)) began)
            reached.served

  route_on-IsAnswered :
      (out : Outside F) (cfg : SentinelConfig F) (rq : Request) (w w' : World F) (a : Answer F)
      → route_on out rq cfg w ≡ (ok a, w')
      → IsAnswered out cfg rq w a w'
  unfolding route_on
  route_on-IsAnswered out cfg rq w w' a h =
      let (d, e₁, h₁) = >>=-eq-ok (draft out cfg rq) _ w h in
      let w₁ = (draft out cfg rq w).1 in
      let (c, e₂, h₂) = >>=-eq-ok (routed out cfg rq.use_judge d) (finish out cfg rq d) w₁ h₁ in
      let w₂ = (routed out cfg rq.use_judge d w₁).1 in
      finished-IsAnswered out cfg rq w w₁ w₂ w' d c a (draft-IsDrafted out cfg rq w w₁ d e₁)
        (routed-IsReached out cfg rq.use_judge d w₁ w₂ c e₂)
        ((routed-Preserves out cfg rq.use_judge d).at w₁)
        (finish-IsFinished out cfg rq d c w₂ w' a h₂)

  -- Route answers from a configuration that is loaded, and what it answers is an answer: its reply is
  -- that of a call with one of the keys of a candidate of its tier, which the limiter let pass after it
  -- had checked each candidate before it once: the limiter of the router in the first call of the
  -- models, and in a second call the one that a failed first call left. A cycle makes the tier the
  -- strong one; and the log of decisions has one new row, with the session, the model, the cost and the
  -- score of the answer.
  pub route-IsAnswered :
      (out : Outside F) (rq : Request) (w w' : World F) (a : Answer F)
      → route out rq w ≡ (ok a, w')
      → (cfg : SentinelConfig F) × (w.router.config ≡ some cfg) × IsAnswered out cfg rq w a w'
  unfolding route
  route-IsAnswered out rq w w' a = elim (Option-cases w.router.config) [
    | inl missing ↦ λ h.
        absurd (cc (ap (λ x. x.0) (subst (λ c. with_config out rq c w ≡ (ok a, w')) missing h)))
    | inr (cfg, loaded) ↦ λ h. (
      cfg,
      loaded,
      route_on-IsAnswered out cfg rq w w' a
          (subst (λ c. with_config out rq c w ≡ (ok a, w')) loaded h),
    )
  ]
