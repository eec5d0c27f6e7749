-- ===== src/Config/Tiers.antt =====
-- What a configuration that passes SentinelConfig.Validate is good for: the router finds a model for
-- every id of its tiers, and a key instance of the right provider for every model.
use llmsentinel_router.Prelude.{
  ℕ, suc, String, ◌==◌, eq_iff, ◌≡◌, refl, true, false, Option, none, some, List, [], ◌∷◌,
  if◌then◌else◌, arith, Bool-cases, Option-cases, ◌⊎◌, inl, inr,
}
use llmsentinel_router.Prelude.Map.{Map, lookup}
use llmsentinel_router.Config.{KeyInstance, ModelDefinition, SentinelConfig, instances_of}
use llmsentinel_router.Config.Validation.{
  Problem, no_instances, ◌then_check◌, is_empty, refuse_if, seen_before, check_model_instances,
  check_models, check_tier, validate, type_of,
}

-- Two checks in a row pass just where both do.
both_pass : (p q : Option Problem) → (p then_check q) ≡ none → (p ≡ none) × (q ≡ none)
both_pass none q h = (refl, h)
both_pass (some p) q h = absurd (ground arith)

abbrev pub IsIn : String → List String → Type 0
IsIn id [] = ⊥
IsIn id (x ∷ xs) = (x ≡ id) ⊎ IsIn id xs

seen_before-IsIn : (id : String) (xs : List String) → IsIn id xs → seen_before id xs ≡ true
unfolding seen_before
seen_before-IsIn id [] h = elim h [ ]
seen_before-IsIn id (x ∷ xs) (inl e) = ground (arith, eq_iff x id)
seen_before-IsIn id (x ∷ xs) (inr h) = ground (arith, seen_before-IsIn id xs h)

module _ {F : Type 0} where
  check_tier-IsIn :
      (models : Map (ModelDefinition F)) (other ids : List String) (id : String)
      → check_tier models other ids ≡ none
      → IsIn id ids
      → (model : ModelDefinition F) × (lookup id models ≡ some model)
        × (model.enabled ≡ true)
        × (seen_before id other ≡ false)
  unfolding check_tier
  check_tier-IsIn models other [] id h i = elim i [ ]
  check_tier-IsIn models other (x ∷ ids) id h i = elim (Option-cases (lookup x models)) [
    | inl gone ↦ absurd (ground (arith, gone, h))
    | inr (model, here) ↦ elim i [
      | inl e ↦
          (model, (ground (arith, e, here)), ground (arith, here, h), ground (arith, here, h, e))
      | inr k ↦ check_tier-IsIn models other ids id (ground (arith, here, h)) k
    ]
  ]

  -- An instance of a model that is there, with a key of the model's provider.
  abbrev pub IsMatched : SentinelConfig F → ModelDefinition F → String → Type 0
  IsMatched cfg model i =
      (inst : KeyInstance) × (lookup i cfg.key_instances ≡ some inst)
      × (type_of (lookup inst.key_ref cfg.keys) ≡ model.provider)

  check_model_instances-IsIn :
      (cfg : SentinelConfig F) (id : String) (model : ModelDefinition F) (seen ids : List String)
      → (enabled : ℕ) (i : String) → check_model_instances cfg id model seen ids enabled ≡ none
      → IsIn i ids
      → IsMatched cfg model i
  unfolding check_model_instances
  check_model_instances-IsIn cfg id model seen [] enabled i h k = elim k [ ]
  check_model_instances-IsIn cfg id model seen (x ∷ ids) enabled i h k =
      elim (Option-cases (lookup x cfg.key_instances)) [
        | inl gone ↦ absurd (ground (arith, gone, h))
        | inr (inst, here) ↦ elim k [
          | inl e ↦ (
            inst,
            ground (arith, e, here),
            (eq_iff (type_of (lookup inst.key_ref cfg.keys)) model.provider).0
                (ground (arith, here, h)),
          )
          | inr rest ↦
              check_model_instances-IsIn cfg id model (x ∷ seen) ids
                (if inst.enabled then suc enabled else enabled) i (ground (arith, here, h)) rest
        ]
      ]

  check_models-lookup :
      (cfg : SentinelConfig F) (models : Map (ModelDefinition F)) (id : String)
      (m : ModelDefinition F)
      → check_models cfg models ≡ none
      → lookup id models ≡ some m
      → check_model_instances cfg id m [] (instances_of m) 0 ≡ none
  unfolding check_models lookup
  check_models-lookup cfg [] id m h here = absurd (ground arith)
  check_models-lookup cfg ((j, model) ∷ rest) id m h here =
      let first = refuse_if (is_empty (instances_of model)) (no_instances j) in
      let second = check_model_instances cfg j model [] (instances_of model) 0 in
      let outer = both_pass first (second then_check check_models cfg rest) h in
      let passed = both_pass second (check_models cfg rest) outer.1 in
      elim (Bool-cases (j == id)) [
        | inl same ↦
            let e : j ≡ id = (eq_iff j id).0 same in ground (arith, same, e, here, passed.0)
        | inr other ↦ check_models-lookup cfg rest id m passed.1 (ground (arith, other, here))
      ]

  -- What Validate promises of the ids that the router goes through: the model of each is there and
  -- enabled, no model is in both tiers, and each instance of a model is there with a key of the
  -- model's provider.
  pub record IsSound (cfg : SentinelConfig F) : Type 0 where
    pub weak_models :
        (id : String)
        → IsIn id cfg.weak_order
        → (model : ModelDefinition F) × (lookup id cfg.models ≡ some model) × (model.enabled ≡ true)
    pub strong_models :
        (id : String)
        → IsIn id cfg.strong_order
        → (model : ModelDefinition F) × (lookup id cfg.models ≡ some model) × (model.enabled ≡ true)
    pub apart : (id : String) → IsIn id cfg.strong_order → ¬ IsIn id cfg.weak_order
    pub instances :
        (id i : String) (model : ModelDefinition F)
        → lookup id cfg.models ≡ some model
        → IsIn i (instances_of model)
        → IsMatched cfg model i

  -- A configuration that Validate accepts.
  pub validate-IsSound : (cfg : SentinelConfig F) → validate cfg ≡ none → IsSound cfg
  unfolding validate
  validate-IsSound cfg h =
      let weak = check_tier cfg.models [] cfg.weak_order in
      let strong = check_tier cfg.models cfg.weak_order cfg.strong_order in
      let weak_ok : weak ≡ none = ground arith in
      let strong_ok : strong ≡ none = ground arith in
      let models_ok : check_models cfg cfg.models ≡ none = ground arith in
      record {
        weak_models = λ id i.
            let m = check_tier-IsIn cfg.models [] cfg.weak_order id weak_ok i in (m.0, m.1, m.2);
        strong_models = λ id i.
            let m = check_tier-IsIn cfg.models cfg.weak_order cfg.strong_order id strong_ok i in
            (m.0, m.1, m.2);
        apart = λ id i k.
            let m = check_tier-IsIn cfg.models cfg.weak_order cfg.strong_order id strong_ok i in
            absurd (ground (arith, m.3, seen_before-IsIn id cfg.weak_order k));
        instances = λ id i model here k.
            check_model_instances-IsIn cfg id model [] (instances_of model) 0 i
              (check_models-lookup cfg cfg.models id model models_ok here) k;
      }
