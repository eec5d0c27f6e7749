-- ===== src/Budget.antt =====
-- internal/budget/budget.go: the budget manager over the session store.
pub mod Limit
pub mod Alone
use llmsentinel_router.Prelude.{ℕ, String, Bool, true, false, not, List, [], ◌∷◌, if◌then◌else◌}
use llmsentinel_router.Prelude.Int.{ℤ, pos}
use llmsentinel_router.Prelude.Float.{Float64}
use llmsentinel_router.Exec.{
  Error, budget_exceeded, Result, ok, err, Exec, pure, raise, ◌>>=◌, ◌>>◌,
}
use llmsentinel_router.Storage.Database.{Session, Db}
use llmsentinel_router.Storage.Sessions

pub record Manager (F : Type 0) : Type 0 where
  pub max_cost_per_session : F

module _ {F : Type 0} ⦃fl : Float64 F⦄ where
  -- `now` is what time.Now() returns where the session is inserted.
  unfoldable pub get_or_create_session :
      Manager F → String → String → String → ℕ → Exec (Db F) (Session F)
  get_or_create_session m id client_ip tier now =
      Sessions.get_or_create_session id client_ip tier m.max_cost_per_session now

  unfoldable pub check_budget : Manager F → String → F → ℕ → Exec (Db F) (Bool × Session F)
  check_budget m id estimated now = do
    session ← Sessions.get_or_create_session id "" "free" m.max_cost_per_session now
    if not session.is_active
        then pure (false, session)
        else pure
            (fl.le (fl.add session.current_cost estimated) session.max_cost_per_session, session)

  -- `session, _ = m.store.GetSessionRequired(...)` before the error of a refusal. The session that
  -- RequireBudget returns beside that error is left out: its caller drops it.
  unfoldable pub refuse_after_read : String → Exec (Db F) (Session F)
  refuse_after_read id db = (err budget_exceeded, (Sessions.get_session_required id db).1)

  unfoldable pub require_budget : Manager F → String → F → ℕ → Exec (Db F) (Session F)
  unfolding refuse_after_read
  require_budget m id estimated now = do
    session ← Sessions.get_or_create_session id "" "free" m.max_cost_per_session now
    if not session.is_active then raise budget_exceeded else do
      reserved ← Sessions.reserve_budget id estimated (pos 3)
      if not reserved then refuse_after_read id else Sessions.get_session_required id

  unfoldable pub settle_cost : String → F → F → Exec (Db F) (Unit {0})
  settle_cost id reserved actual = Sessions.adjust_reserved_cost id reserved actual

  unfoldable pub add_cost : String → F → Exec (Db F) (Unit {0})
  add_cost id cost = Sessions.add_cost id cost

  unfoldable pub reset_session : Manager F → String → F → Exec (Db F) (Unit {0})
  reset_session m id max_cost =
      Sessions.reset_session id
        (if fl.le max_cost (fl.lit 0) then m.max_cost_per_session else max_cost)

  unfoldable pub set_max_cost_per_session : Manager F → F → Manager F
  set_max_cost_per_session m max_cost =
      if fl.lt (fl.lit 0) max_cost then record m { max_cost_per_session = max_cost } else m
