-- ===== src/Router/Refused.antt =====
-- What Route of internal/router/router.go leaves of a request that it does not answer.
use llmsentinel_router.Prelude.{
  String, Bool, ◌≡◌, refl, ap, sym, ◌∙◌, subst, Option, none, some, ◌⊎◌, inl, inr,
}
use llmsentinel_router.Prelude.Float.{Float64}
use llmsentinel_router.Exec.{
  DriverError, Error, database, Result, err_injective, ok, err, Exec, proceed, ◌>>=◌,
}
use llmsentinel_router.Storage.Database.{Session}
use llmsentinel_router.Storage.Decisions.{RoutingDecision, insert_routing_decision}
use llmsentinel_router.Storage.Sessions.{get_session_required}
use llmsentinel_router.Config.{SentinelConfig}
use llmsentinel_router.Router.World.{World, Request, Outside, on_db}
use llmsentinel_router.Router.Route.{Draft, Called, draft, routed, or_text}
use llmsentinel_router.Router.Finish.{
  decision_row, learn, log, pay, report, conclude, finish, route_on, with_config, route,
}
use llmsentinel_router.Router.Frame.{routed-Preserves}
use llmsentinel_router.Router.Inversion.{draft-Preserves, draft-IsDrafted}
use llmsentinel_router.Router.Logged.{
  decisions, Loses, learn-decisions, learn-Loses, pay-Preserves, pay-Loses, log-decisions,
}

module _ {F : Type 0} where
  -- What a request with an error leaves of the log of decisions, for a session: the log as it was; or
  -- one new row of the session, where the INSERT of a row runs and loses its result, which is the error.
  abbrev pub IsForgone : String → World F → Error → World F → Type 0
  IsForgone id w e w' =
      (decisions w' ≡ decisions w)
      ⊎ ((x : DriverError) × (row : RoutingDecision F) × (e ≡ database x)
          × Loses x w.logs.outcomes
          × (row.session_id ≡ id)
          × (decisions w' ≡ insert_routing_decision row (decisions w)))

  -- A step before that keeps the log, and adds no outcomes, makes no difference.
  IsForgone-after :
      (id : String) (w w₁ w' : World F) (e : Error)
      → decisions w₁ ≡ decisions w
      → ((x : DriverError) → Loses x w₁.logs.outcomes → Loses x w.logs.outcomes)
      → IsForgone id w₁ e w'
      → IsForgone id w e w'
  IsForgone-after id w w₁ w' e same fewer (inl kept) = inl (kept ∙ same)
  IsForgone-after id w w₁ w' e same fewer (inr (x, row, error, loses, its, grown)) =
      inr (x, row, error, fewer x loses, its, grown ∙ ap (insert_routing_decision row) same)

  -- A step that leaves the log of decisions so where it fails.
  record Forgoes {A : Type 0} (id : String) (m : Exec (World F) A) : Type 0 where
    at : (w : World F) (e : Error) → (m w).0 ≡ err e → IsForgone id w e (m w).1

  -- A step that keeps the log and adds no outcomes.
  record Passes {A : Type 0} (m : Exec (World F) A) : Type 0 where
    keeps : (w : World F) → decisions (m w).1 ≡ decisions w
    fewer :
        (w : World F) (x : DriverError) → Loses x (m w).1.logs.outcomes → Loses x w.logs.outcomes

  Passes-of_logs :
      {A : Type 0} (m : Exec (World F) A) → ((w : World F) → (m w).1.logs ≡ w.logs) → Passes m
  Passes-of_logs m same = record {
    keeps = λ w. ap (λ l. l.decisions) (same w);
    fewer = λ w x. subst (λ l. Loses x l.outcomes) (same w);
  }

  bind-IsForgone :
      {A B : Type 0} (id : String) (m : Exec (World F) A) (f : A → Exec (World F) B) (w : World F)
      (e : Error)
      → Passes m
      → ((a : A)
          → m w ≡ (ok a, (m w).1)
          → (f a (m w).1).0 ≡ err e
          → IsForgone id (m w).1 e (f a (m w).1).1)
      → ((m >>= f) w).0 ≡ err e
      → IsForgone id w e ((m >>= f) w).1
  unfolding ◌>>=◌
  bind-IsForgone {A = A} {B = B} id m f w e p k h =
      IsForgone-after id w (m w).1 ((m >>= f) w).1 e (p.keeps w) (p.fewer w)
        (by (m w).0 (λ a same. k a (ap (λ r. (r, (m w).1)) same)) h)
    where
      by :
          (r : Result A)
          → ((a : A) → r ≡ ok a → (f a (m w).1).0 ≡ err e → IsForgone id (m w).1 e (f a (m w).1).1)
          → (proceed r f (m w).1).0 ≡ err e
          → IsForgone id (m w).1 e (proceed r f (m w).1).1
      by (ok a) rest over = rest a refl over
      by (err x) rest over = inl refl

  Forgoes-bind :
      {A B : Type 0} (id : String) (m : Exec (World F) A) (f : A → Exec (World F) B)
      → Passes m
      → ((a : A) → Forgoes id (f a))
      → Forgoes id (m >>= f)
  Forgoes-bind id m f p kf = record {
    at = λ w e. bind-IsForgone id m f w e p (λ a same. (kf a).at (m w).1 e);
  }

module _ {F : Type 0} ⦃fl : Float64 F⦄ where
  -- After the report nothing fails.
  report-conclude-Forgoes :
      (out : Outside F) (cfg : SentinelConfig F) (rq : Request) (d : Draft F) (c : Called F)
      (s : Session F)
      → Forgoes d.id (report out rq d c >>= λ u. conclude out cfg rq d c s)
  unfolding report conclude ◌>>=◌ decision_row
  report-conclude-Forgoes out cfg rq d c s = record {
    at = λ w e.
        let before = learn out d c.decided w in
        let kept = learn-decisions out d c.decided w in
        let r = log out rq d c before in
        after w e r.0 r.1 (elim (log-decisions out rq d c before) [
          | inl (fine, grown) ↦ inl fine
          | inr (x, failed, inl same) ↦ inr (λ e h. inl (same ∙ kept))
          | inr (x, failed, inr (loses, grown)) ↦ inr (λ e h. inr (
            x,
            decision_row out rq d c before,
            err_injective (sym h ∙ failed),
            learn-Loses out d c.decided w x loses,
            refl,
            grown ∙ ap (insert_routing_decision (decision_row out rq d c before)) kept,
          ))
        ]);
  }
    where
      after :
          (w : World F) (e : Error) (r : Result (Unit {0})) (w₁ : World F)
          → (r ≡ ok tt) ⊎ ((e : Error) → r ≡ err e → IsForgone d.id w e w₁)
          → (proceed r (λ u. conclude out cfg rq d c s) w₁).0 ≡ err e
          → IsForgone d.id w e (proceed r (λ u. conclude out cfg rq d c s) w₁).1
      after w e (ok u) w₁ either h = absurd (cc h)
      after w e (err x) w₁ (inl fine) h = absurd (cc fine)
      after w e (err x) w₁ (inr forgone) h = forgone e (ap err (err_injective h))

  finish-Forgoes :
      (out : Outside F) (cfg : SentinelConfig F) (rq : Request) (d : Draft F) (c : Called F)
      → Forgoes d.id (finish out cfg rq d c)
  unfolding finish on_db
  finish-Forgoes out cfg rq d c =
      Forgoes-bind d.id (pay out d c) _
        (record { keeps = (pay-Preserves out d c).at; fewer = pay-Loses out d c })
        (λ u.
          Forgoes-bind d.id (on_db (get_session_required d.id)) _
            (Passes-of_logs (on_db (get_session_required d.id)) (λ w. refl))
            (report-conclude-Forgoes out cfg rq d c))

  draft-Passes :
      (out : Outside F) (cfg : SentinelConfig F) (rq : Request) → Passes (draft out cfg rq)
  draft-Passes out cfg rq =
      Passes-of_logs (draft out cfg rq) λ w. ap (λ p. p.0) ((draft-Preserves out cfg rq).at w)

  routed-Passes :
      (out : Outside F) (cfg : SentinelConfig F) (use_judge : Option Bool) (d : Draft F)
      → Passes (routed out cfg use_judge d)
  routed-Passes out cfg use_judge d =
      Passes-of_logs (routed out cfg use_judge d)
        λ w. ap (λ p. p.1) ((routed-Preserves out cfg use_judge d).at w)

  with_config-Forgoes :
      (out : Outside F) (rq : Request) (cfg : Option (SentinelConfig F))
      → Forgoes (or_text rq.session_id out.session_id) (with_config out rq cfg)
  unfolding route_on
  with_config-Forgoes out rq none = record { at = λ w e h. inl refl }
  with_config-Forgoes out rq (some cfg) = record {
    at = λ w e.
        bind-IsForgone (or_text rq.session_id out.session_id) (draft out cfg rq) _ w e
          (draft-Passes out cfg rq)
          (λ d same h.
            (subst (λ id. Forgoes id (routed out cfg rq.use_judge d >>= finish out cfg rq d))
                (draft-IsDrafted out cfg rq w (draft out cfg rq w).1 d same).id
                (Forgoes-bind d.id (routed out cfg rq.use_judge d) (finish out cfg rq d)
                  (routed-Passes out cfg rq.use_judge d) (finish-Forgoes out cfg rq d))).at
              (draft out cfg rq w).1 e h);
  }

  -- A request that Route refuses leaves the log of decisions as it was, whatever other callers and
  -- failing statements do; but for one whose error is that of an INSERT which runs and loses its result:
  -- it may leave one new row, of its session.
  pub route_refused :
      (out : Outside F) (rq : Request) (w : World F) (e : Error)
      → (route out rq w).0 ≡ err e
      → IsForgone (or_text rq.session_id out.session_id) w e (route out rq w).1
  unfolding route
  route_refused out rq w e h = (with_config-Forgoes out rq w.router.config).at w e h
