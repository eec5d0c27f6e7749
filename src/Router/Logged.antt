-- ===== src/Router/Logged.antt =====
-- Which steps of Route of internal/router/router.go write to the log of decisions.
use llmsentinel_router.Prelude.{
  ◌≡◌, refl, ◌∙◌, ◌⊎◌, inl, inr, subst, Bool, true, false, List, [], ◌∷◌, ◌==◌, not, if◌then◌else◌,
}
use llmsentinel_router.Prelude.Float.{Float64}
use llmsentinel_router.Exec.{DriverError, database, ok, err, Exec}
use llmsentinel_router.Exec.Preserves.{Preserves, part_if, part_if_outcome}
use llmsentinel_router.Storage.Database.{Session, Db, Outcome, done, refused, lost}
use llmsentinel_router.Storage.Decisions.{Decisions, insert_routing_decision}
use llmsentinel_router.Storage.Logs.{
  Logs, first_outcome, other_outcomes, after, result_of, insert_cycle_detection,
  insert_escalation_log, insert_escalation_trace, log_decision,
}
use llmsentinel_router.Threshold.{add_decision, adjust}
use llmsentinel_router.Config.{SentinelConfig}
use llmsentinel_router.Router.Calls.{Reply}
use llmsentinel_router.Router.Decision.{final_cost}
use llmsentinel_router.Router.World.{World, Request, Outside, on_db}
use llmsentinel_router.Router.Route.{Draft, Decided, Called}
use llmsentinel_router.Router.Finish.{
  remember, settle, learn, decision_row, log, trace, cache_record, count_call, pay, conclude,
}

module _ {F : Type 0} where
  abbrev pub decisions : World F → Decisions F
  decisions w = w.logs.decisions

  pub on_db-Preserves : {A : Type 0} (m : Exec (Db F) A) → Preserves decisions (on_db m)
  unfolding on_db
  on_db-Preserves m = record { at = λ w. refl }

-- Among the outcomes to come is one that loses the result of its statement.
abbrev pub Loses : DriverError → List Outcome → Type 0
Loses x [] = ⊥
Loses x (o ∷ os) = (o ≡ lost x) ⊎ Loses x os

Loses-other : (x : DriverError) (os : List Outcome) → Loses x (other_outcomes os) → Loses x os
Loses-other x [] h = h
Loses-other x (o ∷ os) h = inr h

module _ {F : Type 0} where
  Loses-if_log :
      (x : DriverError) (b : Bool) (l l' : Logs F) {A : Type 0}
      → (Loses x l.outcomes → A)
      → (Loses x l'.outcomes → A)
      → Loses x ((if b then l else l').outcomes)
      → A
  Loses-if_log x true l l' f g h = f h
  Loses-if_log x false l l' f g h = g h

  Loses-if :
      (x : DriverError) (b : Bool) (w w' : World F) {A : Type 0}
      → (Loses x w.logs.outcomes → A)
      → (Loses x w'.logs.outcomes → A)
      → Loses x ((if b then w else w').logs.outcomes)
      → A
  Loses-if x true w w' f g h = f h
  Loses-if x false w w' f g h = g h

module _ {F : Type 0} ⦃fl : Float64 F⦄ where
  remember-decisions :
      (out : Outside F) (d : Draft F) (reply : Reply F) (w : World F)
      → decisions (remember out d reply w) ≡ decisions w
  unfolding remember insert_cycle_detection
  remember-decisions out d reply w = part_if decisions _ _ _ refl refl

  pub learn-decisions :
      (out : Outside F) (d : Draft F) (decided : Decided F) (w : World F)
      → decisions (learn out d decided w) ≡ decisions w
  unfolding learn insert_escalation_log
  learn-decisions out d decided w =
      part_if decisions _ _ _ refl (part_if (λ (l : Logs F). l.decisions) _ _ _ refl refl)

  trace-decisions :
      (out : Outside F) (d : Draft F) (c : Called F) (w : World F)
      → decisions (trace out d c w) ≡ decisions w
  unfolding trace insert_escalation_trace
  trace-decisions out d c w = part_if decisions _ _ _ refl refl

  cache_record-decisions :
      (out : Outside F) (cfg : SentinelConfig F) (rq : Request) (d : Draft F) (c : Called F)
      (w : World F)
      → decisions (cache_record out cfg rq d c w) ≡ decisions w
  unfolding cache_record
  cache_record-decisions out cfg rq d c w = part_if decisions _ _ _ refl refl

  settle-Preserves : (d : Draft F) (cost : F) → Preserves decisions (settle d cost)
  unfolding settle on_db
  settle-Preserves d cost = record { at = λ w. part_if_outcome decisions _ _ _ refl refl }

  pub pay-Preserves :
      (out : Outside F) (d : Draft F) (c : Called F) → Preserves decisions (pay out d c)
  unfolding pay
  pay-Preserves out d c = record {
    at = λ w.
        (settle-Preserves d (final_cost c.reply.cost).0).at (remember out d c.reply w)
        ∙ remember-decisions out d c.reply w;
  }

  pub conclude-Preserves :
      (out : Outside F) (cfg : SentinelConfig F) (rq : Request) (d : Draft F) (c : Called F)
      (s : Session F)
      → Preserves decisions (conclude out cfg rq d c s)
  unfolding conclude count_call
  conclude-Preserves out cfg rq d c s = record {
    at = λ w. cache_record-decisions out cfg rq d c (trace out d c w) ∙ trace-decisions out d c w;
  }

  remember-Loses :
      (out : Outside F) (d : Draft F) (reply : Reply F) (w : World F) (x : DriverError)
      → Loses x (remember out d reply w).logs.outcomes
      → Loses x w.logs.outcomes
  unfolding remember insert_cycle_detection
  remember-Loses out d reply w x =
      Loses-if x (reply.content == "") _ _ (λ h. h) (Loses-other x w.logs.outcomes)

  pub learn-Loses :
      (out : Outside F) (d : Draft F) (decided : Decided F) (w : World F) (x : DriverError)
      → Loses x (learn out d decided w).logs.outcomes
      → Loses x w.logs.outcomes
  unfolding learn insert_escalation_log
  learn-Loses out d decided w x =
      Loses-if x (not w.router.settings.enable_dynamic_threshold) _ _ (λ h. h)
        (Loses-if_log x (adjust (add_decision (decided.route == "strong") w.router.threshold)).2 _
          w.logs (Loses-other x w.logs.outcomes) (λ h. h))

  settle-Loses :
      (d : Draft F) (cost : F) (w : World F) (x : DriverError)
      → Loses x (settle d cost w).1.logs.outcomes
      → Loses x w.logs.outcomes
  unfolding settle on_db
  settle-Loses d cost w x =
      subst (λ l. Loses x l.outcomes)
        (part_if_outcome (λ (w : World F). w.logs) w.router.settings.enable_budget_kill_switch _ _
          refl refl)

  pub pay-Loses :
      (out : Outside F) (d : Draft F) (c : Called F) (w : World F) (x : DriverError)
      → Loses x (pay out d c w).1.logs.outcomes
      → Loses x w.logs.outcomes
  unfolding pay
  pay-Loses out d c w x h =
      remember-Loses out d c.reply w x
        (settle-Loses d (final_cost c.reply.cost).0 (remember out d c.reply w) x h)

  -- The log has the row where it succeeds or loses the result, and is as before where it is refused.
  pub log-decisions :
      (out : Outside F) (rq : Request) (d : Draft F) (c : Called F) (w : World F)
      → (((log out rq d c w).0 ≡ ok tt)
          × (decisions (log out rq d c w).1
              ≡ insert_routing_decision (decision_row out rq d c w) w.logs.decisions))
        ⊎ ((x : DriverError) × ((log out rq d c w).0 ≡ err (database x))
            × ((decisions (log out rq d c w).1 ≡ w.logs.decisions)
                ⊎ (Loses x w.logs.outcomes
                    × (decisions (log out rq d c w).1
                        ≡ insert_routing_decision (decision_row out rq d c w) w.logs.decisions))))
  unfolding log log_decision
  log-decisions out rq d c w = by w.logs.outcomes
    where
      by :
          (os : List Outcome)
          → ((result_of (first_outcome os) ≡ ok tt)
              × (after
                    (first_outcome os)
                    w.logs.decisions
                    (insert_routing_decision (decision_row out rq d c w) w.logs.decisions)
                  ≡ insert_routing_decision (decision_row out rq d c w) w.logs.decisions))
            ⊎ ((x : DriverError) × (result_of (first_outcome os) ≡ err (database x))
                × ((after
                        (first_outcome os)
                        w.logs.decisions
                        (insert_routing_decision (decision_row out rq d c w) w.logs.decisions)
                      ≡ w.logs.decisions)
                    ⊎ (Loses x os
                        × (after
                              (first_outcome os)
                              w.logs.decisions
                              (insert_routing_decision (decision_row out rq d c w) w.logs.decisions)
                            ≡ insert_routing_decision
                                (decision_row out rq d c w)
                                w.logs.decisions))))
      by [] = inl (refl, refl)
      by (done ∷ os) = inl (refl, refl)
      by (refused x ∷ os) = inr (x, refl, inl refl)
      by (lost x ∷ os) = inr (x, refl, inr (inl refl, refl))
