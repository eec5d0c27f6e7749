-- ===== src/Tests/Budgets.antt =====
-- Sessions and the budget manager (internal/storage, internal/budget) at concrete inputs.
use llmsentinel_router.Prelude.{ℕ, ◌≡◌, refl, true, none, List, [], ◌∷◌, arith}
use llmsentinel_router.Prelude.Int.{ℤ, pos}
use llmsentinel_router.Prelude.Fixed.{fixed, Fixed-IsOrdered}
use llmsentinel_router.Prelude.Map.{lookup, insert}
use llmsentinel_router.Exec.{other, budget_exceeded, out_of_fuel, ◌>>=◌, ok, err}
use llmsentinel_router.Storage.Database.{
  Session, charge_within_limit, Table, fits, charged, apply, apply_all, exec, done, refused, Db,
}
use llmsentinel_router.Storage.Sessions.{reserve_budget, get_or_create_session}
use llmsentinel_router.Storage.Bounds.{WithinLimit, IsSound}
use llmsentinel_router.Storage.Creation.{get_or_create_session-total}
use llmsentinel_router.Storage.Linear.{Decided, reserve_budget-Decided}
use llmsentinel_router.Budget.{Manager, require_budget}
use llmsentinel_router.Budget.Limit.{
  Call, create, require, settle, reset, set_max, calls, IsReady, calls-IsReady,
}
use llmsentinel_router.Budget.Alone.{alone, require_budget_granted, require_budget_refused}

abbrev manager : Manager ℤ
manager = record { max_cost_per_session = pos 10_000_000 }

-- A session of 10.0 that has cost 4.0.
abbrev session_a : Session ℤ
session_a = record {
  session_id = "a";
  client_ip = none;
  tier = "free";
  created_at = 7;
  max_cost_per_session = pos 10_000_000;
  current_cost = pos 4_000_000;
  is_active = true;
  version = 2;
}

abbrev table : Table ℤ
table = ("a", session_a) ∷ []

-- Another caller reserves 1.0 before the first statement, and the second one fails.
abbrev busy : Db ℤ
busy = record {
  sessions = table;
  turns =
      record { others = charge_within_limit "a" (pos 1_000_000) ∷ []; outcome = done }
      ∷ record { others = []; outcome = refused other }
      ∷ [];
}

session_a-WithinLimit : WithinLimit session_a
session_a-WithinLimit = record { not_negative = refl; within = refl; finite = refl }

table-IsSound : IsSound table
unfolding lookup
table-IsSound id r h = ground (arith, session_a-WithinLimit)

busy-IsReady : IsReady (manager, busy)
busy-IsReady = record {
  not_negative = refl;
  finite = refl;
  safe = record { sound = table-IsSound; guarded = ((refl, tt), (tt, tt)) };
}

abbrev day_of_calls : List (Call ℤ)
day_of_calls =
    require "a" (pos 5_000_000) 9
    ∷ settle "a" (pos 5_000_000) (pos 20_000)
    ∷ create "b" "10.0.0.1" "free" 11
    ∷ set_max (pos 2_000_000)
    ∷ reset "a" (pos 0)
    ∷ []

calls-IsReady_example : IsReady (calls day_of_calls (manager, busy))
calls-IsReady_example =
    calls-IsReady Fixed-IsOrdered day_of_calls (manager, busy)
      (refl, (tt, (tt, (refl, (refl, tt))))) busy-IsReady

abbrev charged_twice : Db ℤ
charged_twice = record {
  sessions = insert "a" (charged (pos 5_000_000) (charged (pos 1_000_000) session_a)) table;
  turns = record { others = []; outcome = refused other } ∷ [];
}

reserve_busy : reserve_budget "a" (pos 5_000_000) (pos 3) busy ≡ (ok true, charged_twice)
unfolding reserve_budget ◌>>=◌ exec apply lookup apply_all fits insert charged
reserve_busy = refl

reserve_budget-Decided_example : (k : ℕ) × Decided "a" (pos 5_000_000) busy charged_twice k true
reserve_budget-Decided_example =
    reserve_budget-Decided "a" (pos 5_000_000) (pos 3) busy true charged_twice reserve_busy

get_or_create_session-total_example :
    ¬ ((get_or_create_session "b" "10.0.0.1" "" (pos 2_000_000) 9 busy).0 ≡ err out_of_fuel)
get_or_create_session-total_example =
    get_or_create_session-total "b" "10.0.0.1" "" (pos 2_000_000) 9 busy refl

require_budget_granted_example : require_budget manager "a" (pos 5_000_000) 9 (alone table) ≡ (
  ok (charged (pos 5_000_000) session_a),
  alone (insert "a" (charged (pos 5_000_000) session_a) table),
)
unfolding lookup fits
require_budget_granted_example =
    require_budget_granted manager "a" (pos 5_000_000) 9 table session_a refl refl

require_budget_refused_example :
    require_budget manager "a" (pos 7_000_000) 9 (alone table) ≡ (err budget_exceeded, alone table)
unfolding lookup fits
require_budget_refused_example =
    require_budget_refused Fixed-IsOrdered manager "a" (pos 7_000_000) 9 table session_a refl refl
      refl refl
