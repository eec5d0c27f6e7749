-- ===== src/Config/Validation.antt =====
-- SentinelConfig.Validate, and what a configuration that passes it is good for.
use llmsentinel_router.Prelude.{
  ℕ, suc, String, ◌==◌, Bool, true, false, not, ◌&&◌, Option, none, some, List, [], ◌∷◌,
  if◌then◌else◌, beq,
}
use llmsentinel_router.Prelude.Map.{Map, lookup}
use llmsentinel_router.Config.{Key, KeyInstance, ModelDefinition, SentinelConfig, instances_of}

-- The errors of Validate, with the names that they print.
pub data Problem : Type 0 where
  keys_empty key_instances_empty models_empty weak_tier_empty strong_tier_empty judge_order_empty :
      Problem
  missing_key : String → String → Problem
  no_instances duplicate_instance missing_instance provider_mismatch : String → Problem
  no_enabled_instance : String → Problem
  tier_missing_model tier_disabled_model tier_overlap judge_missing_model : String → Problem

-- The first problem of two checks in a row.
infixr 20 ◌then_check◌
abbrev pub ◌then_check◌ : Option Problem → Option Problem → Option Problem
none then_check q = q
some p then_check q = some p

abbrev pub is_empty {ℓ} : {A : Type ℓ} → List A → Bool
is_empty [] = true
is_empty (x ∷ xs) = false

abbrev pub refuse_if : Bool → Problem → Option Problem
refuse_if true p = some p
refuse_if false p = none

unfoldable pub seen_before : String → List String → Bool
seen_before id [] = false
seen_before id (x ∷ xs) = if x == id then true else seen_before id xs

-- Every instance refers to a key that is there.
unfoldable pub check_instances : Map Key → Map KeyInstance → Option Problem
check_instances keys [] = none
check_instances keys ((id, inst) ∷ rest) = elim (lookup inst.key_ref keys) [
  | none ↦ some (missing_key id inst.key_ref)
  | some key ↦ check_instances keys rest
]

-- `key := c.Keys[inst.KeyRef]` gives the zero key where there is none.
abbrev pub type_of : Option Key → String
type_of none = ""
type_of (some key) = key.type

module _ {F : Type 0} where
  -- The loop over the instances of one model, with those seen and the number that are enabled.
  unfoldable pub check_model_instances :
      SentinelConfig F → String → ModelDefinition F → List String → List String → ℕ → Option Problem
  unfolding seen_before
  check_model_instances cfg id model seen [] enabled =
      refuse_if (model.enabled && beq enabled 0) (no_enabled_instance id)
  check_model_instances cfg id model seen (i ∷ is) enabled =
      let rest = check_model_instances cfg id model (i ∷ seen) is in
      if seen_before i seen
      then some (duplicate_instance id)
      else elim (lookup i cfg.key_instances) [
        | none ↦ some (missing_instance id)
        | some inst ↦
            if not (type_of (lookup inst.key_ref cfg.keys) == model.provider)
            then some (provider_mismatch id)
            else rest (if inst.enabled then suc enabled else enabled)
      ]

  unfoldable pub check_models : SentinelConfig F → Map (ModelDefinition F) → Option Problem
  unfolding check_model_instances instances_of
  check_models cfg [] = none
  check_models cfg ((id, model) ∷ rest) =
      refuse_if (is_empty (instances_of model)) (no_instances id)
      then_check check_model_instances cfg id model [] (instances_of model) 0
      then_check check_models cfg rest

  -- The models of a tier are there and enabled, and not in the other tier.
  unfoldable pub check_tier : Map (ModelDefinition F) → List String → List String → Option Problem
  unfolding seen_before
  check_tier models other [] = none
  check_tier models other (id ∷ ids) = elim (lookup id models) [
    | none ↦ some (tier_missing_model id)
    | some model ↦
        if not model.enabled
        then some (tier_disabled_model id)
        else if seen_before id other
        then some (tier_overlap id)
        else check_tier models other ids
  ]

  unfoldable pub check_judge : Map (ModelDefinition F) → List String → Option Problem
  check_judge models [] = none
  check_judge models (id ∷ ids) = elim (lookup id models) [
    | none ↦ some (judge_missing_model id)
    | some model ↦ check_judge models ids
  ]

  -- `none` is success. Validate also writes the list of instances of a model that has only the one
  -- into the model: `normalized`.
  unfoldable pub validate : SentinelConfig F → Option Problem
  unfolding check_instances check_models check_tier check_judge
  validate cfg =
      refuse_if (is_empty cfg.keys) keys_empty
      then_check refuse_if (is_empty cfg.key_instances) key_instances_empty
      then_check refuse_if (is_empty cfg.models) models_empty
      then_check check_instances cfg.keys cfg.key_instances
      then_check check_models cfg cfg.models
      then_check refuse_if (is_empty cfg.weak_order) weak_tier_empty
      then_check refuse_if (is_empty cfg.strong_order) strong_tier_empty
      then_check check_tier cfg.models [] cfg.weak_order
      then_check check_tier cfg.models cfg.weak_order cfg.strong_order
      then_check refuse_if (cfg.judge.enabled && is_empty cfg.judge.model_order) judge_order_empty
      then_check check_judge cfg.models cfg.judge.model_order

  unfoldable pub normalized : Map (ModelDefinition F) → Map (ModelDefinition F)
  unfolding instances_of
  normalized [] = []
  normalized ((id, model) ∷ rest) =
      (id, record model { key_instances = instances_of model }) ∷ normalized rest
