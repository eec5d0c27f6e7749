-- ===== src/Budget/Alone.antt =====
-- What RequireBudget and SettleCost do for a caller that is alone, on every branch.
use llmsentinel_router.Prelude.{ℕ, String, ◌≡◌, true, false, not, some, [], arith, eq_refl}
use llmsentinel_router.Prelude.Int.{pos}
use llmsentinel_router.Prelude.Float.{Float64, IsOrdered, ◌≼◌}
use llmsentinel_router.Prelude.Map.{lookup, insert, lookup-insert}
use llmsentinel_router.Exec.{budget_exceeded, ok, err, ◌>>=◌}
use llmsentinel_router.Storage.Database.{
  Session, Table, Db, fits, charged, exec, select_session, apply,
}
use llmsentinel_router.Storage.Sessions
use llmsentinel_router.Storage.Sessions.{budget_epsilon}
use llmsentinel_router.Storage.Creation.{get_or_create_session_there}
use llmsentinel_router.Budget.{Manager, require_budget, settle_cost}

module _ {F : Type 0} ⦃fl : Float64 F⦄ where
  abbrev pub alone : Table F → Db F
  alone t = record { sessions = t; turns = [] }

  reserve_granted :
      (id : String) (c : F) (t : Table F) (r : Session F)
      → lookup id t ≡ some r
      → fits c r ≡ true
      → Sessions.reserve_budget id c (pos 3) (alone t)
        ≡ (ok true, alone (insert id (charged c r) t))
  unfolding Sessions.reserve_budget ◌>>=◌ exec apply
  reserve_granted id c t r here room = ground arith

  required :
      (id : String) (t : Table F) (r : Session F)
      → lookup id t ≡ some r
      → Sessions.get_session_required id (alone t) ≡ (ok r, alone t)
  unfolding Sessions.get_session_required ◌>>=◌ select_session
  required id t r here = ground arith

  found :
      (id : String) (limit : F) (now : ℕ) (t : Table F) (r : Session F)
      → lookup id t ≡ some r
      → Sessions.get_or_create_session id "" "free" limit now (alone t) ≡ (ok r, alone t)
  found id limit now t r here = get_or_create_session_there id "" "free" limit now t r here

  -- A session that has room for the estimate is charged with it, and RequireBudget returns it.
  pub require_budget_granted :
      (m : Manager F) (id : String) (estimated : F) (now : ℕ) (t : Table F) (r : Session F)
      → lookup id t ≡ some r
      → fits estimated r ≡ true
      → require_budget m id estimated now (alone t)
        ≡ (ok (charged estimated r), alone (insert id (charged estimated r) t))
  unfolding require_budget ◌>>=◌ fits
  require_budget_granted m id estimated now t r here room =
      let t' = insert id (charged estimated r) t in
      ground (
        arith,
        found id m.max_cost_per_session now t r here,
        reserve_granted id estimated t r here room,
        required id t' (charged estimated r) (simp (lookup-insert, eq_refl)),
      )

  reserve_refused :
      (id : String) (c : F) (t : Table F) (r : Session F)
      → lookup id t ≡ some r
      → fits c r ≡ false
      → (fl.lt r.max_cost_per_session (fl.add r.current_cost c)
          ≡ not (fl.le (fl.add r.current_cost c) r.max_cost_per_session))
      → Sessions.reserve_budget id c (pos 3) (alone t) ≡ (ok false, alone t)
  unfolding Sessions.reserve_budget ◌>>=◌ exec select_session apply fits
  reserve_refused id c t r here no_room order = ground arith

  -- SettleCost by a caller that is alone leaves it alone.
  pub settle_cost-quiet :
      (id : String) (reserved actual : F) (t : Table F) (r : Session F)
      → lookup id t ≡ some r
      → (settle_cost id reserved actual (alone t)).1.turns ≡ []
  unfolding settle_cost Sessions.adjust_reserved_cost ◌>>=◌ exec apply
  settle_cost-quiet id reserved actual t r here = ground arith

module _ {F : Type 0} ⦃fl : Float64 F⦄ (o : IsOrdered F) where
  -- A session that is closed or has no room for the estimate is refused, and nothing changes. (The
  -- sum and the limit are numbers.)
  pub require_budget_refused :
      (m : Manager F) (id : String) (estimated : F) (now : ℕ) (t : Table F) (r : Session F)
      → lookup id t ≡ some r
      → fl.add r.current_cost estimated ≼ fl.add r.current_cost estimated
      → r.max_cost_per_session ≼ r.max_cost_per_session
      → fits estimated r ≡ false
      → require_budget m id estimated now (alone t) ≡ (err budget_exceeded, alone t)
  unfolding require_budget ◌>>=◌
  require_budget_refused m id estimated now t r here sum_num max_num no_room = ground (
    arith,
    found id m.max_cost_per_session now t r here,
    reserve_refused id estimated t r here no_room (o.lt-eq-not-le _ _ max_num sum_num),
    required id t r here,
  )
