-- ===== src/Config/Legacy.antt =====
-- LoadLegacyConfig of internal/config/sentinel.go: the older format of the configuration, from its
-- decoded value on. The entries of its map come in the order in which the loop meets them. Texts to
-- display and descriptions are left out, and so is what the semantic cache of the result has beside its
-- switch.
use Prim.Native.String.{compare}
use text.Mathlib.Text.{is_lt}
use llmsentinel_router.Prelude.{
  String, ◌==◌, Bool, true, not, ◌||◌, Option, none, some, List, [], ◌∷◌, ◌++◌, if◌then◌else◌, take,
}
use llmsentinel_router.Prelude.Int.{ℤ, pos, ltb_ℤ, beq_ℤ}
use llmsentinel_router.Prelude.Map.{Map, lookup, insert}
use llmsentinel_router.Prelude.Text.{Strings, ◌<>◌, contains, first_non_empty}
use llmsentinel_router.Config.{Key, KeyInstance, Pricing, Limits, ModelDefinition, SentinelConfig}
use llmsentinel_router.Config.Settings.{Settings}
use llmsentinel_router.Config.Validation.{Problem, validate}

pub record LegacyModel (F : Type 0) : Type 0 where
  pub provider : String
  pub model_key : String
  pub status : String
  pub priority_group : String
  pub order : ℤ
  pub limits : Limits
  pub pricing : Pricing F

pub record LegacyOrder : Type 0 where
  pub id : String
  pub order : ℤ

-- What the loop collects.
pub record Collected (F : Type 0) : Type 0 where
  pub keys : Map Key
  pub key_instances : Map KeyInstance
  pub models : Map (ModelDefinition F)
  pub weak_items : List LegacyOrder
  pub strong_items : List LegacyOrder
  pub judge_items : List LegacyOrder

-- The comparison of sortLegacy; texts are compared by their bytes.
unfoldable pub before : LegacyOrder → LegacyOrder → Bool
before x y = if beq_ℤ x.order y.order then is_lt (compare x.id y.id) else ltb_ℤ x.order y.order

-- sort.SliceStable, as the insertion of each item after those that it is not before.
unfoldable pub place : LegacyOrder → List LegacyOrder → List LegacyOrder
unfolding before
place x [] = x ∷ []
place x (y ∷ ys) = if before x y then x ∷ y ∷ ys else y ∷ place x ys

unfoldable pub sort_onto : List LegacyOrder → List LegacyOrder → List LegacyOrder
unfolding place
sort_onto sorted [] = sorted
sort_onto sorted (x ∷ xs) = sort_onto (place x sorted) xs

unfoldable pub sort_legacy : List LegacyOrder → List LegacyOrder
unfolding sort_onto
sort_legacy items = sort_onto [] items

unfoldable pub ids : List LegacyOrder → List String
ids [] = []
ids (x ∷ xs) = x.id ∷ ids xs

-- The first two weak models judge where no other model does.
unfoldable pub or_weakest : List String → List String → List String
or_weakest [] weak = take 2 weak
or_weakest (x ∷ xs) weak = x ∷ xs

module _ {F : Type 0} where
  unfoldable pub provider_key_value : Settings F → String → String
  unfolding first_non_empty
  provider_key_value s provider =
      if provider == "deepseek"
      then s.deep_seek_api_key
      else if provider == "anthropic"
      then s.anthropic_api_key
      else if provider == "gemini"
      then first_non_empty (s.gemini_backup1_api_key ∷ s.gemini_backup2_api_key ∷ [])
      else if provider == "groq"
      then s.groq_api_key
      else if provider == "openrouter"
      then s.open_router_api_key
      else ""

  unfoldable pub no_items : Collected F
  no_items = record {
    keys = [];
    key_instances = [];
    models = [];
    weak_items = [];
    strong_items = [];
    judge_items = [];
  }

  -- The key of a provider and its instance, where the provider comes for the first time.
  unfoldable pub with_key : Settings F → String → Collected F → Collected F
  unfolding provider_key_value
  with_key s provider c = elim (lookup (provider <> "_key") c.keys) [
    | some key ↦ c
    | none ↦ record c {
      keys =
          insert (provider <> "_key")
            (record { type = provider; value = provider_key_value s provider }) c.keys;
      key_instances =
          insert (provider <> "_primary")
            (record { key_ref = provider <> "_key"; priority = pos 0; enabled = true })
            c.key_instances;
    }
  ]

  unfoldable pub definition_of : String → LegacyModel F → ModelDefinition F
  unfolding first_non_empty
  definition_of id m = record {
    enabled = true;
    provider = m.provider;
    model_id = first_non_empty (m.model_key ∷ id ∷ []);
    key_instance = "";
    key_instances = (m.provider <> "_primary") ∷ [];
    pricing = m.pricing;
    limits = m.limits;
  }

  abbrev pub is_active : Strings → LegacyModel F → Bool
  is_active st m = st.to_upper m.status == "ACTIVE"

  -- One round of the loop.
  unfoldable pub collect : Strings → Settings F → String × LegacyModel F → Collected F → Collected F
  unfolding with_key definition_of
  collect st s (id, m) c =
      let keyed = with_key s m.provider c in
      let item : LegacyOrder = record { id = id; order = m.order } in
      let strong = m.priority_group == "strong_tier" in
      if not (is_active st m) then c else record keyed {
        models = insert id (definition_of id m) keyed.models;
        weak_items = if strong then keyed.weak_items else keyed.weak_items ++ item ∷ [];
        strong_items = if strong then keyed.strong_items ++ item ∷ [] else keyed.strong_items;
        judge_items =
            if m.provider == "gemini" || contains (st.to_lower id) "judge"
            then keyed.judge_items ++ item ∷ []
            else keyed.judge_items;
      }

  unfoldable pub collect_all :
      Strings → Settings F → List (String × LegacyModel F) → Collected F → Collected F
  unfolding collect
  collect_all st s [] c = c
  collect_all st s (e ∷ es) c = collect_all st s es (collect st s e c)

  unfoldable pub convert : Strings → Settings F → List (String × LegacyModel F) → SentinelConfig F
  unfolding collect_all no_items sort_legacy ids or_weakest
  convert st s legacy =
      let c = collect_all st s legacy no_items in
      let weak = ids (sort_legacy c.weak_items) in
      record {
        keys = c.keys;
        key_instances = c.key_instances;
        models = c.models;
        weak_order = weak;
        strong_order = ids (sort_legacy c.strong_items);
        judge = record {
          enabled = true;
          model_order = or_weakest (ids (sort_legacy c.judge_items)) weak;
          complexity_threshold = s.complexity_threshold;
        };
        semantic_cache_enabled = true;
      }

  -- LoadLegacyConfig, from the decoded value on: the configuration, or a problem of Validate.
  unfoldable pub load_legacy_config :
      Strings → Settings F → List (String × LegacyModel F) → SentinelConfig F × Option Problem
  unfolding convert validate
  load_legacy_config st s legacy = let cfg = convert st s legacy in (cfg, validate cfg)
