-- ===== src/Storage/Sessions.antt =====
-- The methods of internal/storage/storage.go and internal/storage/budget.go on sessions.
use llmsentinel_router.Prelude.{
  ℕ, zero, suc, String, ◌==◌, Bool, true, false, not, Option, none, some, if◌then◌else◌, beq,
  length,
}
use llmsentinel_router.Prelude.Int.{ℤ, pos, pos_part, leb_ℤ}
use llmsentinel_router.Prelude.Float.{Float64}
use llmsentinel_router.Exec.{
  Error, no_rows, constraint, database, out_of_fuel, reservation_conflict, adjustment_failed,
  Result, ok, err, Exec, pure, raise, ◌>>=◌, ◌>>◌,
}
use llmsentinel_router.Storage.Database.{
  Session, insert_session, charge_within_limit, refund, charge, deactivate, restart, Db, exec,
  select_session,
}

-- nullableString
unfoldable pub nullable_string : String → Option String
nullable_string value = if value == "" then none else some value

-- strings.Contains(strings.ToLower(err.Error()), "constraint")
abbrev pub is_constraint : Error → Bool
is_constraint (database constraint) = true
is_constraint _ = false

-- math.Abs(diff) < budgetEpsilon
abbrev pub budget_epsilon : {F : Type 0} ⦃fl : Float64 F⦄ → F
budget_epsilon ⦃fl⦄ = fl.lit 1

module _ {F : Type 0} ⦃fl : Float64 F⦄ where
  unfoldable pub get_session : String → Exec (Db F) (Option (Session F))
  get_session id = select_session id

  abbrev pub found_or_no_rows : Option (Session F) → Exec (Db F) (Session F)
  found_or_no_rows none = raise no_rows
  found_or_no_rows (some s) = pure s

  unfoldable pub get_session_required : String → Exec (Db F) (Session F)
  unfolding get_session
  get_session_required id = do found ← get_session id; found_or_no_rows found

  unfoldable pub new_session : String → String → String → F → ℕ → Session F
  unfolding nullable_string
  new_session id client_ip tier max_cost now = record {
    session_id = id;
    client_ip = nullable_string client_ip;
    tier = if tier == "" then "free" else tier;
    created_at = now;
    max_cost_per_session = max_cost;
    current_cost = fl.lit 0;
    is_active = true;
    version = 0;
  }

  -- One round of GetOrCreateSession for a row to insert; `again` is the recursive call.
  abbrev pub after_insert : String → Exec (Db F) (Session F) → Result ℕ → Exec (Db F) (Session F)
  after_insert id again (ok n) db = get_session_required id db
  after_insert id again (err e) db = elim (is_constraint e) [
    | true ↦ again db
    | false ↦ (err e, db)
  ]

  abbrev pub after_get :
      Session F → Exec (Db F) (Session F) → Result (Option (Session F)) → Exec (Db F) (Session F)
  after_get row again (err e) db = (err e, db)
  after_get row again (ok (some s)) db = (ok s, db)
  after_get row again (ok none) db =
      let (r, db') = exec (insert_session row) db in after_insert row.session_id again r db'

  -- The recursion of GetOrCreateSession, on fuel.
  unfoldable pub create_on : ℕ → Session F → Exec (Db F) (Session F)
  create_on zero row db = (err out_of_fuel, db)
  create_on (suc fuel) row db =
      let (found, db') = get_session row.session_id db in
      after_get row (create_on fuel row) found db'

  -- GetOrCreateSession. A round takes a turn of the environment, or is the last.
  unfoldable pub get_or_create_session : String → String → String → F → ℕ → Exec (Db F) (Session F)
  unfolding create_on new_session
  get_or_create_session id client_ip tier max_cost now db =
      create_on (suc (length db.turns)) (new_session id client_ip tier max_cost now) db

  unfoldable pub add_cost : String → F → Exec (Db F) (Unit {0})
  add_cost id cost = do exec (charge id cost); pure tt

  unfoldable pub deactivate_session : String → Exec (Db F) (Unit {0})
  deactivate_session id = do exec (deactivate id); pure tt

  unfoldable pub reset_session : String → F → Exec (Db F) (Unit {0})
  reset_session id max_cost = do exec (restart id max_cost); pure tt

  -- budget.go
  unfoldable pub try_reserve_budget : String → F → Exec (Db F) Bool
  try_reserve_budget id estimated = do
    rows ← exec (charge_within_limit id estimated)
    pure (beq rows 1)

  -- What AdjustReservedCost does with a difference that is not negligible.
  unfoldable pub adjust_by : String → F → Exec (Db F) (Unit {0})
  adjust_by id diff = if fl.lt diff (fl.lit 0) then (do exec (refund id diff); pure tt) else (do
    rows ← exec (charge_within_limit id diff)
    if beq rows 1 then pure tt else raise adjustment_failed)

  unfoldable pub adjust_reserved_cost : String → F → F → Exec (Db F) (Unit {0})
  unfolding adjust_by
  adjust_reserved_cost id reserved actual =
      let diff = fl.sub actual reserved in
      if fl.lt (fl.abs diff) budget_epsilon then pure tt else adjust_by id diff

  -- What follows in the loop when the session is there and the update has changed no row.
  abbrev pub after_conflict : Session F → F → Exec (Db F) Bool → Exec (Db F) Bool
  after_conflict session estimated again =
      if not session.is_active
      then pure false
      else if fl.lt session.max_cost_per_session (fl.add session.current_cost estimated)
      then pure false
      else again

  -- The rounds left of the loop of ReserveBudget, and `lastErr` as a flag.
  unfoldable pub reserve_rounds : ℕ → Bool → String → F → Exec (Db F) Bool
  unfolding try_reserve_budget get_session
  reserve_rounds zero conflict id estimated =
      if conflict then raise reservation_conflict else pure false
  reserve_rounds (suc left) conflict id estimated =
      let again = reserve_rounds left true id estimated in
      do
        reserved ← try_reserve_budget id estimated
        if reserved then pure true else do
          found ← get_session id
          session ← found_or_no_rows found
          after_conflict session estimated again

  unfoldable pub reserve_budget : String → F → ℤ → Exec (Db F) Bool
  unfolding reserve_rounds
  reserve_budget id estimated max_retries =
      reserve_rounds (if leb_ℤ max_retries (pos 0) then 3 else pos_part max_retries) false id
        estimated
