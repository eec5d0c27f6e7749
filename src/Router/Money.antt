-- ===== src/Router/Money.antt =====
-- What Route of internal/router/router.go does to the sessions table, by the budget.
use llmsentinel_router.Prelude.{
  String, ◌≡◌, refl, ap, sym, ◌∙◌, subst, Bool, true, false, Option, none, some, List,
  if◌then◌else◌, arith,
}
use llmsentinel_router.Prelude.Float.{Float64, IsOrdered, IsFinite, ◌≼◌, not-lt_of_le}
use llmsentinel_router.Exec.{Result, ok, err, Exec, pure, proceed, ◌>>=◌}
use llmsentinel_router.Exec.Preserves.{Preserves, part_if, part_if_outcome}
use llmsentinel_router.Storage.Database.{Session, Db}
use llmsentinel_router.Storage.Keeps.{IsSafe, Keeps, get_session_required-Keeps}
use llmsentinel_router.Storage.Sessions.{get_session_required}
use llmsentinel_router.Router.Decision.{final_cost}
use llmsentinel_router.Router.Calls.{Reply}
use llmsentinel_router.Config.{SentinelConfig}
use llmsentinel_router.Config.Settings.{Settings}
use llmsentinel_router.Budget
use llmsentinel_router.Budget.{require_budget, settle_cost}
use llmsentinel_router.Budget.Limit.{create-Keeps, require_budget-Keeps, settle_cost-Keeps}
use llmsentinel_router.Router.World.{Message, World, Request, Outside, on_db, shown}
use llmsentinel_router.Router.Route.{
  Draft, Decided, Called, or_text, worst_case, look_up, reserve, detect, drafted, draft, routed,
}
use llmsentinel_router.Router.Finish.{
  remember, settle, learn, log, trace, cache_record, count_call, pay, report, conclude, finish,
  route_on, with_config, route,
}
use llmsentinel_router.Router.Frame.{routed-Preserves}

module _ {F : Type 0} ⦃fl : Float64 F⦄ where
  -- The kill switch is on, the limit of new sessions is a finite number that is not negative, and the
  -- database is safe.
  pub record IsSecured (db : Db F) (s : Settings F) (m : Budget.Manager F) : Type 0 where
    pub kill_switch : s.enable_budget_kill_switch ≡ true
    pub not_negative : fl.lit 0 ≼ m.max_cost_per_session
    pub finite : IsFinite m.max_cost_per_session
    pub safe : IsSafe db

  abbrev pub Secured : World F → Type 0
  Secured w = IsSecured w.db w.router.settings w.router.budget

  record Secures {A : Type 0} (m : Exec (World F) A) : Type 0 where
    at : (w : World F) → Secured w → Secured (m w).1

  -- The parts that the budget is about.
  abbrev pub purse : World F → Db F × Settings F × Budget.Manager F
  purse w = (w.db, w.router.settings, w.router.budget)

  Secures-of_Preserves : {A : Type 0} (m : Exec (World F) A) → Preserves purse m → Secures m
  Secures-of_Preserves m p = record {
    at = λ w h. subst (λ q. IsSecured q.0 q.1 q.2) (sym (p.at w)) h;
  }

  proceed-Secured :
      {A B : Type 0} (r : Result A) (f : A → Exec (World F) B) (w : World F)
      → ((a : A) → Secures (f a))
      → Secured w
      → Secured (proceed r f w).1
  proceed-Secured (ok a) f w k h = (k a).at w h
  proceed-Secured (err e) f w k h = h

  Secured-if :
      {A : Type 0} (b : Bool) (x y : A × World F)
      → (b ≡ true → Secured x.1)
      → (b ≡ false → Secured y.1)
      → Secured (if b then x else y).1
  Secured-if true x y h k = h refl
  Secured-if false x y h k = k refl

  Secures-bind :
      {A B : Type 0} (m : Exec (World F) A) (f : A → Exec (World F) B)
      → Secures m
      → ((a : A) → Secures (f a))
      → Secures (m >>= f)
  unfolding ◌>>=◌
  Secures-bind m f km kf = record { at = λ w h. proceed-Secured (m w).0 f (m w).1 kf (km.at w h) }

  Secures-pure : {A : Type 0} (a : A) → Secures (pure a)
  Secures-pure a = record { at = λ w h. h }

  -- A step of the store that keeps the database safe for the manager that is there.
  on_db-Secured :
      {A : Type 0} (m : Exec (Db F) A) (w : World F) → Keeps m → Secured w → Secured (on_db m w).1
  unfolding on_db
  on_db-Secured m w k h = record {
    kill_switch = h.kill_switch;
    not_negative = h.not_negative;
    finite = h.finite;
    safe = k.at w.db h.safe;
  }

  look_up-Preserves :
      (out : Outside F) (cfg : SentinelConfig F) (prompt : String) (messages : List Message)
      → Preserves purse (look_up out cfg prompt messages)
  unfolding look_up
  look_up-Preserves out cfg prompt messages = record {
    at = λ w. part_if_outcome purse _ _ _ refl refl;
  }

  detect-Preserves : (out : Outside F) (id prompt : String) → Preserves purse (detect out id prompt)
  unfolding detect
  detect-Preserves out id prompt = record { at = λ w. refl }

  pub remember-purse :
      (out : Outside F) (d : Draft F) (reply : Reply F) (w : World F)
      → purse (remember out d reply w) ≡ purse w
  unfolding remember
  remember-purse out d reply w = part_if purse _ _ _ refl refl

  learn-purse :
      (out : Outside F) (d : Draft F) (decided : Decided F) (w : World F)
      → purse (learn out d decided w) ≡ purse w
  unfolding learn
  learn-purse out d decided w = part_if purse _ _ _ refl refl

  trace-purse :
      (out : Outside F) (d : Draft F) (c : Called F) (w : World F)
      → purse (trace out d c w) ≡ purse w
  unfolding trace
  trace-purse out d c w = part_if purse _ _ _ refl refl

  cache_record-purse :
      (out : Outside F) (cfg : SentinelConfig F) (rq : Request) (d : Draft F) (c : Called F)
      (w : World F)
      → purse (cache_record out cfg rq d c w) ≡ purse w
  unfolding cache_record
  cache_record-purse out cfg rq d c w = part_if purse _ _ _ refl refl

  count_call-purse :
      (out : Outside F) (c : Called F) (w : World F) → purse (count_call out c w) ≡ purse w
  unfolding count_call
  count_call-purse out c w = refl

  log-Preserves :
      (out : Outside F) (rq : Request) (d : Draft F) (c : Called F)
      → Preserves purse (log out rq d c)
  unfolding log
  log-Preserves out rq d c = record { at = λ w. refl }

  pub report-Preserves :
      (out : Outside F) (rq : Request) (d : Draft F) (c : Called F)
      → Preserves purse (report out rq d c)
  unfolding report
  report-Preserves out rq d c = record {
    at = λ w.
        (log-Preserves out rq d c).at (learn out d c.decided w) ∙ learn-purse out d c.decided w;
  }

  pub conclude-Preserves :
      (out : Outside F) (cfg : SentinelConfig F) (rq : Request) (d : Draft F) (c : Called F)
      (session : Session F)
      → Preserves purse (conclude out cfg rq d c session)
  unfolding conclude
  conclude-Preserves out cfg rq d c session = record {
    at = λ w.
        count_call-purse out c (cache_record out cfg rq d c (trace out d c w))
        ∙ cache_record-purse out cfg rq d c (trace out d c w)
        ∙ trace-purse out d c w;
  }

module _ {F : Type 0} ⦃fl : Float64 F⦄ (o : IsOrdered F) where
  worst_case-not_negative : fl.lt worst_case (fl.lit 0) ≡ false
  worst_case-not_negative = not-lt_of_le o worst_case (fl.lit 0) (o.lit_mono 0 50_000 (omega arith))

  settle-Secures : (d : Draft F) (cost : F) → Secures (settle d cost)
  unfolding settle
  settle-Secures d cost = record {
    at = λ w h.
        Secured-if w.router.settings.enable_budget_kill_switch _ _
          (λ e.
            on_db-Secured (settle_cost d.id d.reserved cost) w
              (settle_cost-Keeps o d.id d.reserved cost) h)
          (λ e. absurd (cc (h.kill_switch, e)));
  }

  reserve-Secures : (out : Outside F) (id : String) → Secures (reserve out id)
  unfolding reserve ◌>>=◌
  reserve-Secures out id = record {
    at = λ w h.
        let m = require_budget w.router.budget id (worst_case ⦃fl = fl⦄) out.created in
        Secured-if w.router.settings.enable_budget_kill_switch _ _
          (λ e.
            proceed-Secured (on_db m w).0 (λ s. pure (worst_case ⦃fl = fl⦄)) (on_db m w).1
              (λ s. Secures-pure (worst_case ⦃fl = fl⦄))
              (on_db-Secured m w
                (require_budget-Keeps o w.router.budget id worst_case out.created h.not_negative
                  h.finite worst_case-not_negative)
                h))
          (λ e. h);
  }

  draft-Secures :
      (out : Outside F) (cfg : SentinelConfig F) (rq : Request) → Secures (draft out cfg rq)
  unfolding draft ◌>>=◌
  draft-Secures out cfg rq = record {
    at = λ w h.
        let id = or_text rq.session_id out.session_id in
        let create =
          Budget.get_or_create_session w.router.budget id rq.client_ip (or_text rq.tier "free")
            out.created in
        proceed-Secured (on_db create w).0 _ (on_db create w).1
          (λ session.
            Secures-bind _ _
              (Secures-of_Preserves _ (
                look_up-Preserves out cfg (shown out w.router.redactor rq).0
                  (shown out w.router.redactor rq).1))
              λ cached. Secures-bind _ _ (reserve-Secures out id) λ reserved.
                Secures-bind _ _
                  (Secures-of_Preserves _
                    (detect-Preserves out id (shown out w.router.redactor rq).0))
                  λ found.
                    Secures-pure
                      (drafted id (shown out w.router.redactor rq) cached reserved found))
          (on_db-Secured create w
            (create-Keeps o w.router.budget id rq.client_ip (or_text rq.tier "free") out.created
              h.not_negative h.finite)
            h);
  }

  routed-Secures :
      (out : Outside F) (cfg : SentinelConfig F) (use_judge : Option Bool) (d : Draft F)
      → Secures (routed out cfg use_judge d)
  routed-Secures out cfg use_judge d =
      Secures-of_Preserves (routed out cfg use_judge d) (record {
        at = λ w. ap (λ p. (p.0, p.2, p.3)) ((routed-Preserves out cfg use_judge d).at w);
      })

  get_session-Secures : (id : String) → Secures {F = F} (on_db (get_session_required id))
  get_session-Secures id = record {
    at = λ w. on_db-Secured (get_session_required id) w (get_session_required-Keeps o id);
  }

  pay-Secures : (out : Outside F) (d : Draft F) (c : Called F) → Secures (pay out d c)
  unfolding pay
  pay-Secures out d c = record {
    at = λ w h.
        (settle-Secures d (final_cost c.reply.cost).0).at (remember out d c.reply w)
          (subst (λ q. IsSecured q.0 q.1 q.2) (sym (remember-purse out d c.reply w)) h);
  }

  finish-Secures :
      (out : Outside F) (cfg : SentinelConfig F) (rq : Request) (d : Draft F) (c : Called F)
      → Secures (finish out cfg rq d c)
  unfolding finish
  finish-Secures out cfg rq d c = Secures-bind _ _ (pay-Secures out d c) λ a.
      Secures-bind _ _ (get_session-Secures d.id) λ session.
        Secures-bind _ _ (Secures-of_Preserves (report out rq d c) (report-Preserves out rq d c))
          λ b.
            Secures-of_Preserves (conclude out cfg rq d c session)
              (conclude-Preserves out cfg rq d c session)

  with_config-Secures :
      (out : Outside F) (rq : Request) (cfg : Option (SentinelConfig F))
      → Secures (with_config out rq cfg)
  unfolding route_on
  with_config-Secures out rq none = record { at = λ w h. h }
  with_config-Secures out rq (some cfg) =
      Secures-bind _ _ (draft-Secures out cfg rq)
        λ d. Secures-bind _ _ (routed-Secures out cfg rq.use_judge d) (finish-Secures out cfg rq d)

  -- While the kill switch is on and the limit of new sessions is finite and not negative, Route keeps
  -- every session at a cost of no less than nothing and no more than its limit, on every path, errors
  -- included, whatever other callers do meanwhile by guarded statements and whatever statements fail;
  -- the switch and the limit stay as they are.
  pub route-IsSecured :
      (out : Outside F) (rq : Request) (w : World F)
      → IsSecured w.db w.router.settings w.router.budget
      → let w' = (route out rq w).1 in IsSecured w'.db w'.router.settings w'.router.budget
  unfolding route
  route-IsSecured out rq w h = (with_config-Secures out rq w.router.config).at w h
