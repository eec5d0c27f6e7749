-- ===== src/Router/Models.antt =====
-- The status and the running figures that the router keeps of each model, and the models that it can
-- call (internal/router/router.go). The mutex makes each method atomic; `now` is time.Now().
use llmsentinel_router.Prelude.{
  ℕ, ◌+◌, String, ◌==◌, eq_iff, eq_refl, ◌≡◌, refl, Bool, true, false, not, ◌||◌, ◌&&◌,
  Option-cases, inl, inr, Option, none, some, List, [], ◌∷◌, if◌then◌else◌, arith,
}
use llmsentinel_router.Prelude.Int.{ℤ, pos, add64}
use llmsentinel_router.Prelude.Float.{Float64}
use llmsentinel_router.Prelude.Map.{Map, lookup, insert, lookup-insert}
use llmsentinel_router.Config.{ModelDefinition, SentinelConfig}

-- Without CurrentRPM, which RuntimeFor reads from the limiter.
pub record ModelRuntime (F : Type 0) : Type 0 where
  pub status : String
  pub requests_today : ℤ
  pub tokens_today : ℤ
  pub total_cost_session : F
  pub last_updated : Option ℕ

pub record Models (F : Type 0) : Type 0 where
  pub model_status : Map String
  pub model_stats : Map (ModelRuntime F)

-- The zero of a key that is not there.
abbrev pub status_or_empty : Option String → String
status_or_empty none = ""
status_or_empty (some s) = s

abbrev pub or_active : String → String
or_active s = if s == "" then "active" else s

module _ {F : Type 0} where
  unfoldable pub set_model_status : String → String → Models F → Models F
  set_model_status id status m = record m {
    model_status = insert id (or_active status) m.model_status;
  }

  unfoldable pub set_statuses : Map (ModelDefinition F) → String → Map String → Map String
  set_statuses [] status m = m
  set_statuses ((id, model) ∷ rest) status m = set_statuses rest status (insert id status m)

  unfoldable pub set_all_model_status : SentinelConfig F → String → Models F → Models F
  unfolding set_statuses
  set_all_model_status cfg status m = record m {
    model_status = set_statuses cfg.models status m.model_status;
  }

  unfoldable pub model_can_route : Models F → String → ModelDefinition F → Bool
  model_can_route m id model =
      let status = status_or_empty (lookup id m.model_status) in
      if not model.enabled then false else (status == "" || status == "active")

  unfoldable pub routable : Map (ModelDefinition F) → Models F → List String → List String
  unfolding model_can_route
  routable models m [] = []
  routable models m (id ∷ ids) =
      let rest = routable models m ids in
      elim (lookup id models) [
        | none ↦ rest
        | some model ↦ if model_can_route m id model then id ∷ rest else rest
      ]

  unfoldable pub candidates : SentinelConfig F → String → Models F → List String
  unfolding routable
  candidates cfg priority_group m =
      routable cfg.models m
        (if priority_group == "strong_tier" then cfg.strong_order else cfg.weak_order)

module _ {F : Type 0} ⦃fl : Float64 F⦄ where
  -- `&ModelRuntime{Status: status}`, where the model has no figures.
  abbrev pub runtime_or : String → Option (ModelRuntime F) → ModelRuntime F
  runtime_or status none = record {
    status = status;
    requests_today = pos 0;
    tokens_today = pos 0;
    total_cost_session = fl.lit 0;
    last_updated = none;
  }
  runtime_or status (some r) = r

  unfoldable pub reset_model_cost : String → ℕ → Models F → Models F
  reset_model_cost id now m =
      let r = runtime_or "" (lookup id m.model_stats) in
      record m {
        model_stats =
            insert id (record r { total_cost_session = fl.lit 0; last_updated = some now })
              m.model_stats;
      }

  -- The loop over the models of the configuration.
  unfoldable pub reset_costs :
      Map (ModelDefinition F) → ℕ → Map (ModelRuntime F) → Map (ModelRuntime F)
  reset_costs [] now stats = stats
  reset_costs ((id, model) ∷ rest) now stats =
      let r = runtime_or "active" (lookup id stats) in
      reset_costs rest now
        (insert id (record r { total_cost_session = fl.lit 0; last_updated = some now }) stats)

  -- The loop over the figures that are there, where no configuration is loaded.
  unfoldable pub reset_all_stats : ℕ → Map (ModelRuntime F) → Map (ModelRuntime F)
  reset_all_stats now [] = []
  reset_all_stats now ((id, r) ∷ rest) =
      (id, record r { total_cost_session = fl.lit 0; last_updated = some now })
      ∷ reset_all_stats now rest

  unfoldable pub reset_all_model_costs : Option (SentinelConfig F) → ℕ → Models F → Models F
  unfolding reset_costs reset_all_stats
  reset_all_model_costs none now m = record m { model_stats = reset_all_stats now m.model_stats }
  reset_all_model_costs (some cfg) now m = record m {
    model_stats = reset_costs cfg.models now m.model_stats;
  }

  unfoldable pub record_model_runtime : String → ℤ → F → ℕ → Models F → Models F
  record_model_runtime id tokens cost now m =
      let r = runtime_or "active" (lookup id m.model_stats) in
      record m {
        model_stats =
            insert id
              (record r {
                requests_today = add64 r.requests_today (pos 1);
                tokens_today = add64 r.tokens_today tokens;
                total_cost_session = fl.add r.total_cost_session cost;
                last_updated = some now;
              })
              m.model_stats;
      }

  unfoldable pub runtime_for : String → ModelDefinition F → Models F → ModelRuntime F
  runtime_for id model m =
      let status =
        if not model.enabled
        then "disabled"
        else or_active (status_or_empty (lookup id m.model_status)) in
      record (runtime_or status (lookup id m.model_stats)) { status = status }

-- The number of times that an id stands in a list.
abbrev pub occurrences : String → List String → ℕ
occurrences id [] = 0
occurrences id (x ∷ xs) = (if x == id then 1 else 0) + occurrences id xs

-- A status that has not been set, or is empty or "active".
abbrev pub is_active : Option String → Bool
is_active none = true
is_active (some s) = s == "" || s == "active"

module _ {F : Type 0} where
  -- A model that is there, enabled, and active.
  abbrev pub is_routable : Map (ModelDefinition F) → Models F → String → Bool
  is_routable models m id = elim (lookup id models) [
    | none ↦ false
    | some model ↦ model.enabled && is_active (lookup id m.model_status)
  ]

  model_can_route-is_active :
      (m : Models F) (id : String) (model : ModelDefinition F)
      → model_can_route m id model ≡ (model.enabled && is_active (lookup id m.model_status))
  unfolding model_can_route
  model_can_route-is_active m id model = by model.enabled (lookup id m.model_status)
    where
      by :
          (b : Bool) (s : Option String)
          → (if not b then false else (status_or_empty s == "" || status_or_empty s == "active"))
            ≡ (b && is_active s)
      by false s = refl
      by true none = refl
      by true (some s) = refl

  occurrences-routable :
      (models : Map (ModelDefinition F)) (m : Models F) (ids : List String) (id : String)
      → occurrences id (routable models m ids)
        ≡ (if is_routable models m id then occurrences id ids else 0)
  unfolding routable
  occurrences-routable models m [] id = ground arith
  occurrences-routable models m (x ∷ ids) id = elim (Option-cases (lookup x models)) [
    | inl gone ↦ ground (arith, gone, eq_iff x id, occurrences-routable models m ids id)
    | inr (model, here) ↦ ground (
      arith,
      here,
      eq_iff x id,
      model_can_route-is_active m x model,
      occurrences-routable models m ids id,
    )
  ]

  -- The candidates of a tier are its models that are there, enabled and active (of a status that is not
  -- set, empty or "active"): such a model is a candidate as often as its tier's order has it, and no
  -- other is.
  pub occurrences-candidates :
      (cfg : SentinelConfig F) (group : String) (m : Models F) (id : String)
      → occurrences id (candidates cfg group m) ≡ (
          if is_routable cfg.models m id
          then occurrences id (if group == "strong_tier" then cfg.strong_order else cfg.weak_order)
          else 0)
  unfolding candidates
  occurrences-candidates cfg group m id =
      occurrences-routable cfg.models m
        (if group == "strong_tier" then cfg.strong_order else cfg.weak_order) id

  -- A model that has been given a status other than "active" and "" is a candidate of neither tier.
  pub set_model_status-not_candidate :
      (cfg : SentinelConfig F) (group id status : String) (m : Models F)
      → (status == "") ≡ false
      → (status == "active") ≡ false
      → occurrences id (candidates cfg group (set_model_status id status m)) ≡ 0
  unfolding set_model_status
  set_model_status-not_candidate cfg group id status m nonempty inactive = ground (
    arith,
    nonempty,
    inactive,
    occurrences-candidates cfg group (set_model_status id status m) id,
    lookup-insert id id status m.model_status,
    eq_refl id,
  )
