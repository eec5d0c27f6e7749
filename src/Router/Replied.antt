-- ===== src/Router/Replied.antt =====
-- The inner loop of callCandidates (internal/router/router.go): the calls of one model with its keys.
use llmsentinel_router.Prelude.{
  ℕ, suc, String, ◌≡◌, refl, ap, ◌∙◌, Option, some, List, [], ◌∷◌, arith, inl, inr, some_injective,
}
use llmsentinel_router.Exec.{Error, ok, result_cases}
use llmsentinel_router.Config.Tiers.{IsIn}
use llmsentinel_router.Router.Calls.{Reply, Provider, try_keys}

module _ {F : Type 0} where
  -- A reply of a model is a call's with one of its keys.
  pub record IsReplied (p : Provider F) (id : String) (keys : List String) (r : Reply F)
      : Type 0 where
    pub key : String
    pub number : ℕ
    pub its_key : IsIn key keys
    pub replied : p.call number id key ≡ ok r

  pub try_keys-IsReplied :
      (p : Provider F) (id : String) (keys : List String) (n : ℕ) (last : Option Error)
      (r : Reply F)
      → (try_keys p id keys n last).0 ≡ some r
      → IsReplied p id keys r
  unfolding try_keys
  try_keys-IsReplied p id [] n last r = λ h. absurd (ground arith)
  try_keys-IsReplied p id (k ∷ ks) n last r = elim (result_cases (p.call n id k)) [
    | inl (a, e) ↦ λ h.
        let same : a ≡ r = some_injective (ground (arith, e, h)) in
        record { key = k; number = n; its_key = inl refl; replied = e ∙ ap ok same }
    | inr (x, e) ↦ λ h.
        let rest = try_keys-IsReplied p id ks (suc n) (some x) r (ground (arith, e, h)) in
        record {
          key = rest.key;
          number = rest.number;
          its_key = inr rest.its_key;
          replied = rest.replied;
        }
  ]

  -- Keys of which one always answers give a reply.
  pub try_keys-answers :
      (p : Provider F) (id : String) (keys : List String) (n : ℕ) (last : Option Error)
      (key : String)
      → IsIn key keys
      → ((number : ℕ) → (r : Reply F) × (p.call number id key ≡ ok r))
      → (r : Reply F) × ((try_keys p id keys n last).0 ≡ some r)
  unfolding try_keys
  try_keys-answers p id [] n last key i always = elim i [ ]
  try_keys-answers p id (k ∷ ks) n last key i always = elim (result_cases (p.call n id k)) [
    | inl (a, e) ↦ (a, ground (arith, e))
    | inr (x, e) ↦ elim i [
      | inl same ↦ let good = always n in absurd (ground (arith, same, e, good.1))
      | inr rest ↦
          let later = try_keys-answers p id ks (suc n) (some x) key rest always in
          (later.0, ground (arith, e, later.1))
    ]
  ]
