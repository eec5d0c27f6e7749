-- ===== src/Storage/Logs.antt =====
-- The tables that internal/storage/audit.go appends to, and the routing_decisions table beside them.
-- What becomes of an INSERT is the environment's choice: `outcomes` has one for each statement to come,
-- and with none left every statement runs. A refused INSERT leaves its table as it is; one whose result
-- is lost has written its row, and its caller gets an error.
use llmsentinel_router.Prelude.{ℕ, String, Option, List, [], ◌∷◌}
use llmsentinel_router.Exec.{database, Result, ok, err}
use llmsentinel_router.Storage.Database.{Outcome, done, refused, lost}
use llmsentinel_router.Storage.Decisions.{RoutingDecision, Decisions, insert_routing_decision}

pub record CycleDetectionRecord : Type 0 where
  pub session_id : String
  pub prompt_hash : String
  pub response_hash : String

pub record EscalationLogRecord (F : Type 0) : Type 0 where
  pub session_id : String
  pub escalation_rate : F
  pub threshold_before : F
  pub threshold_after : F
  pub reason : String

pub record EscalationTraceRecord (F : Type 0) : Type 0 where
  pub session_id : String
  pub request_id : String
  pub model_used : String
  pub complexity_score : F
  pub impact_scope : Option String
  pub reason : Option String

-- Each table with the latest row first, but for the decisions; a row with the time of its INSERT.
pub record Logs (F : Type 0) : Type 0 where
  pub cycle_detections : List (CycleDetectionRecord × ℕ)
  pub escalation_logs : List (EscalationLogRecord F × ℕ)
  pub escalation_traces : List (EscalationTraceRecord F × ℕ)
  pub decisions : Decisions F
  pub outcomes : List Outcome

abbrev pub first_outcome : List Outcome → Outcome
first_outcome [] = done
first_outcome (o ∷ os) = o

abbrev pub other_outcomes : List Outcome → List Outcome
other_outcomes [] = []
other_outcomes (o ∷ os) = os

-- The table after an INSERT, from the table as it is and the table with the row.
abbrev pub after {ℓ} : {A : Type ℓ} → Outcome → A → A → A
after done old new = new
after (refused e) old new = old
after (lost e) old new = new

-- What the caller of an INSERT gets.
abbrev pub result_of : Outcome → Result (Unit {0})
result_of done = ok tt
result_of (refused e) = err (database e)
result_of (lost e) = err (database e)

module _ {F : Type 0} where
  unfoldable pub insert_cycle_detection : CycleDetectionRecord → ℕ → Logs F → Logs F
  insert_cycle_detection r now l = record l {
    cycle_detections =
        after (first_outcome l.outcomes) l.cycle_detections ((r, now) ∷ l.cycle_detections);
    outcomes = other_outcomes l.outcomes;
  }

  unfoldable pub insert_escalation_log : EscalationLogRecord F → ℕ → Logs F → Logs F
  insert_escalation_log r now l = record l {
    escalation_logs =
        after (first_outcome l.outcomes) l.escalation_logs ((r, now) ∷ l.escalation_logs);
    outcomes = other_outcomes l.outcomes;
  }

  unfoldable pub insert_escalation_trace : EscalationTraceRecord F → ℕ → Logs F → Logs F
  insert_escalation_trace r now l = record l {
    escalation_traces =
        after (first_outcome l.outcomes) l.escalation_traces ((r, now) ∷ l.escalation_traces);
    outcomes = other_outcomes l.outcomes;
  }

  -- The INSERT of a decision; its error is that of the router's caller.
  unfoldable pub log_decision : RoutingDecision F → Logs F → Result (Unit {0}) × Logs F
  unfolding insert_routing_decision
  log_decision d l = (
    result_of (first_outcome l.outcomes),
    record l {
      decisions =
          after (first_outcome l.outcomes) l.decisions (insert_routing_decision d l.decisions);
      outcomes = other_outcomes l.outcomes;
    },
  )
