-- ===== src/Router/Calls.antt =====
-- callCandidates of internal/router/router.go: the loop over a tier's models and their keys. The
-- provider's call is `Provider.call`, `clock i` is the time at the candidate number `i`. Latency and
-- metrics are not modelled.
use llmsentinel_router.Prelude.{
  ℕ, suc, String, ◌==◌, Option, none, some, List, [], ◌∷◌, if◌then◌else◌,
}
use llmsentinel_router.Prelude.Int.{ℤ, pos}
use llmsentinel_router.Prelude.Float.{Float64}
use llmsentinel_router.Prelude.Map.{lookup}
use llmsentinel_router.Exec.{Error, no_active_models, no_model, Result, ok, err}
use llmsentinel_router.Config.{ModelDefinition, SentinelConfig, Limits}
use llmsentinel_router.Rate.{Limiter, check}
use llmsentinel_router.Router.Keys.{ordered_keys}
use llmsentinel_router.Router.Models.{Models, candidates}

pub record Reply (F : Type 0) : Type 0 where
  pub content : String
  pub model : String
  pub cost : F
  pub prompt_tokens : ℤ
  pub completion_tokens : ℤ
  pub total_tokens : ℤ

-- `call n id key`: what call number `n` of a request gives, of a model with a key.
pub record Provider (F : Type 0) : Type 0 where
  pub call : ℕ → String → String → Result (Reply F)

abbrev pub error_or_no_model : Option Error → Error
error_or_no_model none = no_model
error_or_no_model (some e) = e

module _ {F : Type 0} where
  -- The model of a candidate, or the zero model; what the loop reads of it.
  abbrev pub limits_of : Option (ModelDefinition F) → Limits
  limits_of none = record {
    requests_per_minute = pos 0;
    requests_per_day = pos 0;
    tokens_per_minute = pos 0;
    tokens_per_day = pos 0;
  }
  limits_of (some m) = m.limits

  abbrev pub keys_of : SentinelConfig F → Option (ModelDefinition F) → List String
  keys_of cfg none = []
  keys_of cfg (some m) = ordered_keys cfg m

  abbrev pub name_of : Option (ModelDefinition F) → String
  name_of none = ""
  name_of (some m) = m.model_id

  -- The model's own name, where the reply has none.
  unfoldable pub named : String → Reply F → Reply F
  named name r = if r.model == "" then record r { model = name } else r

  -- The inner loop, with the calls made and the last error.
  unfoldable pub try_keys :
      Provider F → String → List String → ℕ → Option Error → Option (Reply F) × ℕ × Option Error
  try_keys p id [] n last = (none, n, last)
  try_keys p id (k ∷ ks) n last = elim (p.call n id k) [
    | ok r ↦ (some r, suc n, last)
    | err e ↦ try_keys p id ks (suc n) (some e)
  ]

module _ {F : Type 0} ⦃fl : Float64 F⦄ where
  -- The outer loop, at the candidate number `i`.
  unfoldable pub call_each :
      Provider F
      → SentinelConfig F
      → ℤ
      → (ℕ → ℕ)
      → List String
      → ℕ
      → ℕ
      → Option Error
      → Limiter F
      → Result (Reply F × String) × Limiter F
  unfolding check try_keys named
  call_each p cfg estimated clock [] i n last l = (err (error_or_no_model last), l)
  call_each p cfg estimated clock (id ∷ ids) i n last l =
      let model = lookup id cfg.models in
      let c = check id (limits_of model) estimated (clock i) l in
      let t = try_keys p id (keys_of cfg model) n last in
      elim c.1 [
        | some reason ↦ call_each p cfg estimated clock ids (suc i) n last c.0
        | none ↦ elim t.0 [
          | some r ↦ (ok (named (name_of model) r, id), c.0)
          | none ↦ call_each p cfg estimated clock ids (suc i) t.1 t.2 c.0
        ]
      ]

  -- With the list of the candidates; `estimated` is twice the number of words of the prompt.
  unfoldable pub call_list :
      Provider F
      → SentinelConfig F
      → ℤ
      → (ℕ → ℕ)
      → List String
      → Limiter F
      → Result (Reply F × String) × Limiter F
  unfolding call_each
  call_list p cfg estimated clock [] l = (err no_active_models, l)
  call_list p cfg estimated clock (id ∷ ids) l =
      call_each p cfg estimated clock (id ∷ ids) 0 0 none l

  unfoldable pub call_candidates :
      Provider F
      → SentinelConfig F
      → String
      → ℤ
      → (ℕ → ℕ)
      → Models F
      → Limiter F
      → Result (Reply F × String) × Limiter F
  unfolding call_list candidates
  call_candidates p cfg group estimated clock m l =
      call_list p cfg estimated clock (candidates cfg group m) l
