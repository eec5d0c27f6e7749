-- ===== src/Config.antt =====
-- internal/config/sentinel.go: the configuration of keys, models and routing. JSON decoding is not
-- modelled: a configuration is the value that decoding yields.
pub mod Validation
pub mod Tiers
pub mod Manager
pub mod Settings
pub mod Legacy
pub mod Tiering
use llmsentinel_router.Prelude.{
  ℕ, String, ◌==◌, Bool, true, false, not, ◌&&◌, Option, none, some, List, [], ◌∷◌, if◌then◌else◌,
}
use llmsentinel_router.Prelude.Int.{ℤ}
use llmsentinel_router.Prelude.Map.{Map, lookup}

pub record Key : Type 0 where
  pub type : String
  pub value : String

pub record KeyInstance : Type 0 where
  pub key_ref : String
  pub priority : ℤ
  pub enabled : Bool

pub record Pricing (F : Type 0) : Type 0 where
  pub input_cost_per_m : F
  pub output_cost_per_m : F

pub record Limits : Type 0 where
  pub requests_per_minute : ℤ
  pub requests_per_day : ℤ
  pub tokens_per_minute : ℤ
  pub tokens_per_day : ℤ

pub record ModelDefinition (F : Type 0) : Type 0 where
  pub enabled : Bool
  pub provider : String
  pub model_id : String
  pub key_instance : String
  pub key_instances : List String
  pub pricing : Pricing F
  pub limits : Limits

pub record JudgeConfig (F : Type 0) : Type 0 where
  pub enabled : Bool
  pub model_order : List String
  pub complexity_threshold : F

-- `routing_policy` is its two orders, `semantic_cache` its switch: the code reads no more of them.
pub record SentinelConfig (F : Type 0) : Type 0 where
  pub keys : Map Key
  pub key_instances : Map KeyInstance
  pub models : Map (ModelDefinition F)
  pub weak_order : List String
  pub strong_order : List String
  pub judge : JudgeConfig F
  pub semantic_cache_enabled : Bool

unfoldable pub or_single : List String → String → List String
or_single [] i = if i == "" then [] else i ∷ []
or_single (x ∷ xs) i = x ∷ xs

module _ {F : Type 0} where
  -- The start of firstKey, orderedKeys and the loop of Validate: the list of instances, or the one.
  unfoldable pub instances_of : ModelDefinition F → List String
  unfolding or_single
  instances_of m = or_single m.key_instances m.key_instance

  -- An instance that is there and enabled, with a key that is there and not empty; its priority and
  -- the key's value.
  unfoldable pub usable_key : SentinelConfig F → String → Option (ℤ × String)
  usable_key cfg id = elim (lookup id cfg.key_instances) [
    | none ↦ none
    | some inst ↦ if not inst.enabled then none else elim (lookup inst.key_ref cfg.keys) [
      | none ↦ none
      | some key ↦ if key.value == "" then none else some (inst.priority, key.value)
    ]
  ]
