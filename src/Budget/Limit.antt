-- ===== src/Budget/Limit.antt =====
-- No session ever costs more than its limit while every cost goes through reservations and
-- settlements: the methods of the manager in any order, beside any other callers.
use llmsentinel_router.Prelude.{
  ℕ, String, ◌≡◌, false, not, List, [], ◌∷◌, arith, inl, inr, Bool-cases,
}
use llmsentinel_router.Prelude.Int.{pos}
use llmsentinel_router.Prelude.Float.{Float64, IsOrdered, IsFinite, ◌≼◌, le_of_lt, zero_num}
use llmsentinel_router.Exec.{budget_exceeded, Exec}
use llmsentinel_router.Storage.Database.{Db, restart}
use llmsentinel_router.Storage.Sessions
use llmsentinel_router.Storage.Keeps.{
  IsSafe, Keeps, Keeps-pure, Keeps-raise, Keeps-if, Keeps-bind, exec-Keeps,
  get_session_required-Keeps, reserve_budget-Keeps, adjust_reserved_cost-Keeps,
}
use llmsentinel_router.Storage.Creation.{get_or_create_session-Keeps}
use llmsentinel_router.Budget.{
  Manager, get_or_create_session, check_budget, refuse_after_read, require_budget, settle_cost,
  reset_session, set_max_cost_per_session,
}

-- A call of the manager, with the clock where it may create a session. AddCost, which the router
-- calls only with the kill switch off, checks no limit and is not among them.
pub data Call (F : Type 0) : Type 0 where
  create : String → String → String → ℕ → Call F
  check : String → F → ℕ → Call F
  require : String → F → ℕ → Call F
  settle : String → F → F → Call F
  reset : String → F → Call F
  set_max : F → Call F

module _ {F : Type 0} ⦃fl : Float64 F⦄ where
  -- What one call makes of the manager and the database; its answer does not matter here.
  unfoldable pub call : Call F → Manager F × Db F → Manager F × Db F
  call (create id ip tier now) (m, db) = (m, (get_or_create_session m id ip tier now db).1)
  call (check id estimated now) (m, db) = (m, (check_budget m id estimated now db).1)
  call (require id estimated now) (m, db) = (m, (require_budget m id estimated now db).1)
  call (settle id reserved actual) (m, db) = (m, (settle_cost id reserved actual db).1)
  call (reset id max_cost) (m, db) = (m, (reset_session m id max_cost db).1)
  call (set_max max_cost) (m, db) = (set_max_cost_per_session m max_cost, db)

  unfoldable pub calls : List (Call F) → Manager F × Db F → Manager F × Db F
  calls [] s = s
  calls (c ∷ cs) s = calls cs (call c s)

  -- Estimates are not negative, and limits are finite numbers.
  abbrev pub IsAllowed : Call F → Type 0
  IsAllowed (require id estimated now) = fl.lt estimated (fl.lit 0) ≡ false
  IsAllowed (reset id max_cost) = IsFinite max_cost
  IsAllowed (set_max max_cost) = IsFinite max_cost
  IsAllowed _ = Unit

  abbrev pub AllAllowed : List (Call F) → Type 0
  AllAllowed [] = Unit
  AllAllowed (c ∷ cs) = IsAllowed c × AllAllowed cs

  -- The manager's own limit is a finite number that is not negative, and the database is safe.
  pub record IsReady (s : Manager F × Db F) : Type 0 where
    pub not_negative : fl.lit 0 ≼ s.0.max_cost_per_session
    pub finite : IsFinite s.0.max_cost_per_session
    pub safe : IsSafe s.1

module _ {F : Type 0} ⦃fl : Float64 F⦄ (o : IsOrdered F) where
  refuse_after_read-Keeps : (id : String) → Keeps {F = F} (refuse_after_read id)
  unfolding refuse_after_read
  refuse_after_read-Keeps id = record { at = (get_session_required-Keeps o id).at }

  pub require_budget-Keeps :
      (m : Manager F) (id : String) (c : F) (now : ℕ)
      → fl.lit 0 ≼ m.max_cost_per_session
      → IsFinite m.max_cost_per_session
      → fl.lt c (fl.lit 0) ≡ false
      → Keeps (require_budget m id c now)
  unfolding require_budget
  require_budget-Keeps m id c now low fin h =
      Keeps-bind _ _ (get_or_create_session-Keeps o id "" "free" m.max_cost_per_session now low fin)
        λ session.
          Keeps-if (not session.is_active) _ _ (λ e. Keeps-raise budget_exceeded)
            λ e. Keeps-bind _ _ (reserve_budget-Keeps o id c (pos 3) h) λ reserved.
              Keeps-if (not reserved) _ _ (λ e. refuse_after_read-Keeps id)
                (λ e. get_session_required-Keeps o id)

  check_budget-Keeps :
      (m : Manager F) (id : String) (c : F) (now : ℕ)
      → fl.lit 0 ≼ m.max_cost_per_session
      → IsFinite m.max_cost_per_session
      → Keeps (check_budget m id c now)
  unfolding check_budget
  check_budget-Keeps m id c now low fin =
      Keeps-bind _ _ (get_or_create_session-Keeps o id "" "free" m.max_cost_per_session now low fin)
        λ session. Keeps-if (not session.is_active) _ _ (λ e. Keeps-pure _) (λ e. Keeps-pure _)

  restart-Keeps :
      (id : String) (m : F) → fl.lit 0 ≼ m → IsFinite m → Keeps (Sessions.reset_session id m)
  unfolding Sessions.reset_session
  restart-Keeps id m low fin =
      Keeps-bind _ _ (exec-Keeps o (restart id m) (low, fin)) (λ n. Keeps-pure tt)

  reset_session-Keeps :
      (m : Manager F) (id : String) (max_cost : F)
      → fl.lit 0 ≼ m.max_cost_per_session
      → IsFinite m.max_cost_per_session
      → IsFinite max_cost
      → Keeps (reset_session m id max_cost)
  unfolding reset_session
  reset_session-Keeps m id max_cost low fin h = elim (Bool-cases (fl.le max_cost (fl.lit 0))) [
    | inl default ↦ rw default (restart-Keeps id m.max_cost_per_session low fin)
    | inr given ↦ rw given (
        restart-Keeps id max_cost
          (ground (
            arith,
            given,
            o.le_total max_cost (fl.lit 0) (o.refl_of_finite max_cost h) (zero_num o),
          ))
          h)
  ]

  pub create-Keeps :
      (m : Manager F) (id ip tier : String) (now : ℕ)
      → fl.lit 0 ≼ m.max_cost_per_session
      → IsFinite m.max_cost_per_session
      → Keeps (get_or_create_session m id ip tier now)
  unfolding get_or_create_session
  create-Keeps m id ip tier now =
      get_or_create_session-Keeps o id ip tier m.max_cost_per_session now

  pub settle_cost-Keeps :
      (id : String) (reserved actual : F) → Keeps (settle_cost id reserved actual)
  unfolding settle_cost
  settle_cost-Keeps id reserved actual = adjust_reserved_cost-Keeps o id reserved actual

  IsReady-kept :
      {A : Type 0} (m : Manager F) (db : Db F) (run : Exec (Db F) A)
      → Keeps run
      → IsReady (m, db)
      → IsReady (m, (run db).1)
  IsReady-kept m db run k h = record {
    not_negative = h.not_negative;
    finite = h.finite;
    safe = k.at db h.safe;
  }

  -- One call keeps the manager ready, whatever the environment does meanwhile.
  call-IsReady : (c : Call F) (s : Manager F × Db F) → IsAllowed c → IsReady s → IsReady (call c s)
  unfolding call set_max_cost_per_session
  call-IsReady (create id ip tier now) (m, db) a h =
      IsReady-kept m db _ (create-Keeps m id ip tier now h.not_negative h.finite) h
  call-IsReady (check id c now) (m, db) a h =
      IsReady-kept m db _ (check_budget-Keeps m id c now h.not_negative h.finite) h
  call-IsReady (require id c now) (m, db) a h =
      IsReady-kept m db _ (require_budget-Keeps m id c now h.not_negative h.finite a) h
  call-IsReady (settle id reserved actual) (m, db) a h =
      IsReady-kept m db _ (settle_cost-Keeps id reserved actual) h
  call-IsReady (reset id max_cost) (m, db) a h =
      IsReady-kept m db _ (reset_session-Keeps m id max_cost h.not_negative h.finite a) h
  call-IsReady (set_max max_cost) (m, db) a h = elim (Bool-cases (fl.lt (fl.lit 0) max_cost)) [
    | inl positive ↦ rw positive (record {
      not_negative = le_of_lt o (fl.lit 0) max_cost positive;
      finite = a;
      safe = h.safe;
    })
    | inr other ↦ rw other h
  ]

  -- From a manager that is ready, any calls but AddCost, with estimates that are not negative and
  -- limits that are finite, leave it ready: every session has cost no less than nothing and no more
  -- than its limit, beside other callers and failing statements.
  pub calls-IsReady :
      (cs : List (Call F)) (s : Manager F × Db F) → AllAllowed cs → IsReady s → IsReady (calls cs s)
  unfolding calls
  calls-IsReady [] s a h = h
  calls-IsReady (c ∷ cs) s a h = calls-IsReady cs (call c s) a.1 (call-IsReady c s a.0 h)
