-- ===== src/Router/Reached.antt =====
-- Where the reply of a request comes from, and under which decision: Route of
-- internal/router/router.go from the verdict to the reply.
use llmsentinel_router.Prelude.{
  ℕ, ◌*◌, String, ◌≡◌, refl, sym, ap, subst, Bool, true, false, ◌&&◌, Option, if◌then◌else◌, arith,
  ◌⊎◌, inl, inr, length,
}
use llmsentinel_router.Prelude.Int.{ℤ, pos}
use llmsentinel_router.Prelude.Float.{Float64}
use llmsentinel_router.Exec.{
  Error, Result, ok, err, pure, raise, >>=-eq-ok, ok_injective, result_cases,
}
use llmsentinel_router.Config.{SentinelConfig}
use llmsentinel_router.Rate.{Limiter}
use llmsentinel_router.Judge.Registry.{Verdict}
use llmsentinel_router.Router.Models.{Models, candidates}
use llmsentinel_router.Router.Calls.{Reply, Provider, call_candidates}
use llmsentinel_router.Router.Served.{IsServed, call_candidates-IsServed}
use llmsentinel_router.Router.Decision.{decide_route}
use llmsentinel_router.Router.World.{Router, World, Outside}
use llmsentinel_router.Router.Route.{
  Draft, Decided, Called, ask, first_verdict, decide, call_tier, timed_out, called, late,
  call_as_judged, call_again, after_call, call_models, or_forget, route_by, routed, group_of,
  tier_of,
}
use llmsentinel_router.Router.Frame.{first_verdict-Preserves}

module _ {F : Type 0} ⦃fl : Float64 F⦄ where
  abbrev pub estimate_of : Outside F → Draft F → ℤ
  estimate_of out d = pos (length (out.strings.fields d.prompt) * 2)

  abbrev pub start : World F → Models F × Limiter F
  start w = (w.router.models, w.router.limiter)

  -- A call of the models, its clock and the limiter that it finds: of the first call the one at hand, of
  -- the second call the one that the first call leaves, which failed.
  abbrev pub IsCall :
      Outside F
      → SentinelConfig F
      → ℤ
      → Models F
      → Limiter F
      → Provider F
      → (ℕ → ℕ)
      → Limiter F
      → Type 0
  IsCall out cfg estimated m l provider clock limiter =
      ((provider ≡ out.first) × (clock ≡ out.first_clock) × (limiter ≡ l))
      ⊎ ((provider ≡ out.second)
          × (clock ≡ out.second_clock)
          × ((group : String) × (e : Error) × (call_candidates out.first cfg group estimated
                  out.first_clock m l
                ≡ (err e, limiter))))

  -- A reply is that of the first or of the second call, from a candidate of the tier that the decision
  -- names; the tier of the result is that one; and a cycle makes it the strong one.
  pub record IsReached (out : Outside F) (cfg : SentinelConfig F) (d : Draft F)
      (s : Models F × Limiter F) (c : Called F) : Type 0 where
    pub provider : Provider F
    pub clock : ℕ → ℕ
    pub limiter : Limiter F
    pub which : IsCall out cfg (estimate_of out d) s.0 s.1 provider clock limiter
    pub served :
        IsServed provider cfg
          (estimate_of out d)
          clock
          0
          limiter
          (candidates cfg (group_of c.decided.route) s.0)
          c.reply
          c.model
    pub tier : c.tier ≡ tier_of c.decided.route
    pub cycle : d.cycle_detected ≡ true → c.decided.route ≡ "strong"

  decide_cycle :
      (out : Outside F) (d : Draft F) (r : Router F) (v : Verdict F) (b : Bool)
      → d.cycle_detected ≡ true
      → (decide out d r v b).route ≡ "strong"
  unfolding decide decide_route
  decide_cycle out d r v b h = ground (arith, h)

  call_tier-IsServed :
      (p : Provider F) (clock : ℕ → ℕ) (out : Outside F) (cfg : SentinelConfig F) (group : String)
      (d : Draft F) (w w' : World F) (reply : Reply F) (model : String)
      → call_tier p clock out cfg group d.prompt w ≡ (ok (reply, model), w')
      → IsServed p cfg
          (estimate_of out d)
          clock
          0
          w.router.limiter
          (candidates cfg group w.router.models)
          reply
          model
  unfolding call_tier
  call_tier-IsServed p clock out cfg group d w w' reply model h =
      call_candidates-IsServed p cfg group (estimate_of out d) clock w.router.models
        w.router.limiter reply model (ap (λ x. x.0) h)

  call_as_judged-IsReached :
      (out : Outside F) (cfg : SentinelConfig F) (d : Draft F) (v : Verdict F) (w w' : World F)
      (c : Called F) (l : Limiter F) (group : String) (e : Error)
      → call_candidates out.first cfg group (estimate_of out d) out.first_clock w.router.models l
        ≡ (err e, w.router.limiter)
      → call_as_judged out cfg d v w ≡ (ok c, w')
      → IsReached out cfg d (w.router.models, l) c
  unfolding call_as_judged late
  call_as_judged-IsReached out cfg d v w w' c l group e first h =
      let decided = late out d w.router v in
      let (answer, replied, rest) =
        >>=-eq-ok (call_tier out.second out.second_clock out cfg (group_of decided.route) d.prompt)
          (λ answer. pure (called decided answer)) w h in
      subst (IsReached out cfg d (w.router.models, l)) (ok_injective (ap (λ x. x.0) rest)) (record {
        provider = out.second;
        clock = out.second_clock;
        limiter = w.router.limiter;
        which = inr (refl, refl, (group, e, first));
        served =
            call_tier-IsServed out.second out.second_clock out cfg (group_of decided.route) d w _
              answer.0 answer.1 replied;
        tier = refl;
        cycle = decide_cycle out d w.router v true;
      })

  call_again-IsReached :
      (out : Outside F) (cfg : SentinelConfig F) (d : Draft F) (w w' : World F) (c : Called F)
      (l : Limiter F) (group : String) (e : Error)
      → call_candidates out.first cfg group (estimate_of out d) out.first_clock w.router.models l
        ≡ (err e, w.router.limiter)
      → call_again out cfg d w ≡ (ok c, w')
      → IsReached out cfg d (w.router.models, l) c
  unfolding call_again ask
  call_again-IsReached out cfg d w w' c l group e first h =
      let (v, asked, rest) = >>=-eq-ok (ask out cfg d.prompt) (call_as_judged out cfg d) w h in
      call_as_judged-IsReached out cfg d v (ask out cfg d.prompt w).1 w' c l group e first rest

  call_tier_limiter :
      (p : Provider F) (clock : ℕ → ℕ) (out : Outside F) (cfg : SentinelConfig F) (group : String)
      (d : Draft F) (w w' : World F) (e : Error)
      → call_tier p clock out cfg group d.prompt w ≡ (err e, w')
      → call_candidates p cfg group (estimate_of out d) clock w.router.models w.router.limiter
        ≡ (err e, w'.router.limiter)
  unfolding call_tier
  call_tier_limiter p clock out cfg group d w w' e h = ap (λ x. (x.0, x.1.router.limiter)) h

  after_call-IsReached :
      (out : Outside F) (cfg : SentinelConfig F) (d : Draft F) (decided : Decided F)
      (conditional : Bool) (w w₁ w' : World F) (r : Result (Reply F × String)) (c : Called F)
      → (d.cycle_detected ≡ true → decided.route ≡ "strong")
      → call_tier out.first out.first_clock out cfg (group_of decided.route) d.prompt w ≡ (r, w₁)
      → w₁.router.models ≡ w.router.models
      → after_call out cfg d decided conditional r w₁ ≡ (ok c, w')
      → IsReached out cfg d (start w) c
  unfolding after_call
  after_call-IsReached out cfg d decided conditional w w₁ w' (ok (reply, model)) c strong first same
        h =
      subst (IsReached out cfg d (start w)) (ok_injective (ap (λ x. x.0) h)) (record {
        provider = out.first;
        clock = out.first_clock;
        limiter = w.router.limiter;
        which = inl (refl, refl, refl);
        served =
            call_tier-IsServed out.first out.first_clock out cfg (group_of decided.route) d w w₁
              reply model first;
        tier = refl;
        cycle = strong;
      })
  after_call-IsReached out cfg d decided conditional w w₁ w' (err e) c strong first same h =
      either (conditional && timed_out out e) h
    where
      failed :
          call_candidates out.first cfg
            (group_of decided.route)
            (estimate_of out d)
            out.first_clock
            w₁.router.models
            w.router.limiter
          ≡ (err e, w₁.router.limiter)
      failed =
          subst
            (λ m.
              call_candidates out.first cfg (group_of decided.route) (estimate_of out d)
                out.first_clock m w.router.limiter
              ≡ (err e, w₁.router.limiter))
            (sym same)
            (call_tier_limiter out.first out.first_clock out cfg (group_of decided.route) d w w₁ e
              first)

      either :
          (b : Bool)
          → (if b then call_again out cfg d else raise e) w₁ ≡ (ok c, w')
          → IsReached out cfg d (start w) c
      either true again =
          subst (λ m. IsReached out cfg d (m, w.router.limiter) c) same
            (call_again-IsReached out cfg d w₁ w' c w.router.limiter (group_of decided.route) e
              failed again)
      either false over = absurd (cc (ap (λ x. x.0) over))

  call_models-IsReached :
      (out : Outside F) (cfg : SentinelConfig F) (use_judge : Option Bool) (d : Draft F)
      (decided : Decided F) (w w' : World F) (c : Called F)
      → (d.cycle_detected ≡ true → decided.route ≡ "strong")
      → call_models out cfg use_judge d decided w ≡ (ok c, w')
      → IsReached out cfg d (start w) c
  unfolding call_models call_tier
  call_models-IsReached out cfg use_judge d decided w w' c strong h =
      after_call-IsReached out cfg d decided _ w _ w' _ c strong refl refl h

  or_forget_ok :
      (d : Draft F) (r : Result (Called F) × World F) (c : Called F) (w' : World F)
      → or_forget d r ≡ (ok c, w')
      → r ≡ (ok c, w')
  unfolding or_forget
  or_forget_ok d (ok c', w) c w' h = h
  or_forget_ok d (err e, w) c w' h = absurd (cc (ap (λ x. x.0) h))

  route_by-IsReached :
      (out : Outside F) (cfg : SentinelConfig F) (use_judge : Option Bool) (d : Draft F)
      (v : Verdict F × Bool) (w w' : World F) (c : Called F)
      → route_by out cfg use_judge d v w ≡ (ok c, w')
      → IsReached out cfg d (start w) c
  unfolding route_by
  route_by-IsReached out cfg use_judge d (v, invoked) w w' c h =
      let decided = decide out d w.router v invoked in
      call_models-IsReached out cfg use_judge d decided w w' c
        (decide_cycle out d w.router v invoked)
        (or_forget_ok d (call_models out cfg use_judge d decided w) c w' h)

  -- The reply of a request that reaches one, whatever the verdict: it is that of the first or of the
  -- second call, from a candidate of the tier of its decision.
  pub routed-IsReached :
      (out : Outside F) (cfg : SentinelConfig F) (use_judge : Option Bool) (d : Draft F)
      (w w' : World F) (c : Called F)
      → routed out cfg use_judge d w ≡ (ok c, w')
      → IsReached out cfg d (start w) c
  unfolding routed
  routed-IsReached out cfg use_judge d w w' c h =
      let (v, judged, rest) =
        >>=-eq-ok (first_verdict out cfg use_judge d) (route_by out cfg use_judge d) w h in
      subst (λ s. IsReached out cfg d s c)
        (ap (λ p. (p.0.5, p.1)) ((first_verdict-Preserves out cfg use_judge d).at w))
        (route_by-IsReached out cfg use_judge d v (first_verdict out cfg use_judge d w).1 w' c rest)

  -- Where no provider ever answers, no request reaches a reply.
  pub routed_fails :
      (out : Outside F) (cfg : SentinelConfig F) (use_judge : Option Bool) (d : Draft F)
      (w : World F)
      → ((n : ℕ) (id key : String) → (e : Error) × (out.first.call n id key ≡ err e))
      → ((n : ℕ) (id key : String) → (e : Error) × (out.second.call n id key ≡ err e))
      → (e : Error) × (routed out cfg use_judge d w ≡ (err e, (routed out cfg use_judge d w).1))
  routed_fails out cfg use_judge d w first second =
      elim (result_cases (routed out cfg use_judge d w).0) [
        | inr (e, failed) ↦ (e, ap (λ r. (r, (routed out cfg use_judge d w).1)) failed)
        | inl (c, succeeded) ↦
            let reached =
              routed-IsReached out cfg use_judge d w (routed out cfg use_judge d w).1 c
                (ap (λ r. (r, (routed out cfg use_judge d w).1)) succeeded) in
            absurd (unanswered c reached reached.which)
      ]
    where
      unanswered :
          (c : Called F) (r : IsReached out cfg d (start w) c)
          → IsCall out cfg
              (estimate_of out d)
              w.router.models
              w.router.limiter
              r.provider
              r.clock
              r.limiter
          → ⊥
      unanswered c r (inl (e, at, from)) =
          let call = r.served.from_call in
          let failed = first call.number c.model call.key in
          cc (call.replied, ap (λ p. p.call call.number c.model call.key) e, failed.1)
      unanswered c r (inr (e, at, from)) =
          let call = r.served.from_call in
          let failed = second call.number c.model call.key in
          cc (call.replied, ap (λ p. p.call call.number c.model call.key) e, failed.1)
