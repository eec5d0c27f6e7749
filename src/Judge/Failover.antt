-- ===== src/Judge/Failover.antt =====
-- What Registry.Evaluate (internal/judge/registry.go) answers with, and how many judges it asks.
use llmsentinel_router.Prelude.{
  ℕ, suc, String, ◌≡◌, refl, true, Option, none, some, List, [], ◌∷◌, arith, Bool-cases,
  Option-cases, ◌⊎◌, inl, inr, subst, some_injective,
}
use llmsentinel_router.Prelude.Int.{ℤ, pos, leb_ℤ, ◌≤ℤ◌, ◌<ℤ◌}
use llmsentinel_router.Prelude.Map.{lookup}
use llmsentinel_router.Config.{ModelDefinition, SentinelConfig}
use llmsentinel_router.Judge.Health.{HealthTracker, record_failure}
use llmsentinel_router.Judge.Registry.{
  Verdict, Judges, first_key, ready_key, ask_judges, answer_or_heuristic, evaluate,
}

module _ {F : Type 0} where
  -- A judge that can give the answer `r`: its model is there and enabled, it has a key, and a call of
  -- it before the bound on attempts gives `r`.
  pub record IsJudged (js : Judges F) (cfg : SentinelConfig F) (max_attempts : ℤ) (r : Verdict F)
      : Type 0 where
    pub model : ModelDefinition F
    pub key : String
    pub attempt : ℕ
    pub answer : Verdict F
    pub here : lookup r.judge_id cfg.models ≡ some model
    pub switched_on : model.enabled ≡ true
    pub its_key : first_key cfg model ≡ some key
    pub in_bound : pos attempt <ℤ max_attempts
    pub answered : js.call attempt r.judge_id key ≡ some answer
    pub same : r ≡ record answer { judge_id = r.judge_id }

  ready_key-first_key :
      (cfg : SentinelConfig F) (health : HealthTracker) (now : ℕ) (id key : String)
      → ready_key cfg health now id ≡ some key
      → (model : ModelDefinition F) × (lookup id cfg.models ≡ some model)
        × (model.enabled ≡ true)
        × (first_key cfg model ≡ some key)
  unfolding ready_key
  ready_key-first_key cfg health now id key h = elim (Option-cases (lookup id cfg.models)) [
    | inl gone ↦ absurd (ground (arith, gone, h))
    | inr (model, here) ↦ (model, here, ground (arith, here, h), ground (arith, here, h))
  ]

  -- The loop makes no more attempts than its bound, and at most one for each judge that is left.
  pub ask_judges_bounded :
      (js : Judges F) (cfg : SentinelConfig F) (max_attempts : ℤ) (now : ℕ) (ids : List String)
      → (attempts : ℕ) (health : HealthTracker) → pos attempts ≤ℤ max_attempts
      → pos (ask_judges js cfg max_attempts now ids attempts health).1 ≤ℤ max_attempts
  unfolding ask_judges
  ask_judges_bounded js cfg m now [] attempts health h = h
  ask_judges_bounded js cfg m now (id ∷ ids) attempts health h =
      elim (Bool-cases (leb_ℤ m (pos attempts))) [
        | inl full ↦ rw full h
        | inr room ↦ rw room (elim (Option-cases (ready_key cfg health now id)) [
          | inl shut ↦ rw shut (ask_judges_bounded js cfg m now ids attempts health h)
          | inr (key, ready) ↦ rw ready (elim (Option-cases (js.call attempts id key)) [
            | inl failed ↦ rw failed (
                ask_judges_bounded js cfg m now ids (suc attempts) (record_failure id now health)
                  (ground arith))
            | inr (r, answered) ↦ rw answered (ground arith)
          ])
        ])
      ]

  ask_judges-IsJudged :
      (js : Judges F) (cfg : SentinelConfig F) (max_attempts : ℤ) (now : ℕ) (ids : List String)
      → (attempts : ℕ) (health : HealthTracker) (r : Verdict F)
      → (ask_judges js cfg max_attempts now ids attempts health).0 ≡ some r
      → IsJudged js cfg max_attempts r
  unfolding ask_judges
  ask_judges-IsJudged js cfg m now [] attempts health r = λ h. absurd (ground arith)
  ask_judges-IsJudged js cfg m now (id ∷ ids) attempts health r =
      elim (Bool-cases (leb_ℤ m (pos attempts))) [
        | inl full ↦ rw full (λ h. absurd (ground arith))
        | inr room ↦ rw room (elim (Option-cases (ready_key cfg health now id)) [
          | inl shut ↦ rw shut (ask_judges-IsJudged js cfg m now ids attempts health r)
          | inr (key, ready) ↦ rw ready (elim (Option-cases (js.call attempts id key)) [
            | inl failed ↦ rw failed (
                ask_judges-IsJudged js cfg m now ids (suc attempts) (record_failure id now health)
                  r)
            | inr (a, answered) ↦ rw answered (λ h.
                let k = ready_key-first_key cfg health now id key ready in
                subst (IsJudged js cfg m) (some_injective h) (record {
                  model = k.0;
                  key = key;
                  attempt = attempts;
                  answer = a;
                  here = k.1;
                  switched_on = k.2;
                  its_key = k.3;
                  in_bound = ground (arith, room);
                  answered = answered;
                  same = refl;
                }))
          ])
        ])
      ]

  evaluate_enabled :
      (js : Judges F) (cfg : SentinelConfig F) (m : ℤ) (now : ℕ) (health : HealthTracker)
      → cfg.judge.enabled ≡ true
      → evaluate js (some cfg) m now health
        ≡ answer_or_heuristic js (ask_judges js cfg m now cfg.judge.model_order 0 health)
  unfolding evaluate
  evaluate_enabled js cfg m now health on = ground (arith, on)

  -- With an enabled judge the answer is either that of a model of the configuration, enabled, with a
  -- usable key and called before the bound on attempts, or the heuristic with its score and scope.
  pub evaluate-IsJudged :
      (js : Judges F) (cfg : SentinelConfig F) (max_attempts : ℤ) (now : ℕ) (health : HealthTracker)
      → cfg.judge.enabled ≡ true
      → let r = (evaluate js (some cfg) max_attempts now health).0 in
        IsJudged js cfg max_attempts r
        ⊎ ((r.judge_id ≡ "heuristic")
            × (r.complexity_score ≡ js.heuristic.complexity_score)
            × (r.impact_scope ≡ js.heuristic.impact_scope))
  unfolding evaluate answer_or_heuristic
  evaluate-IsJudged js cfg m now health on = rw (evaluate_enabled js cfg m now health on) (
      by_answer (ask_judges js cfg m now cfg.judge.model_order 0 health)
        (ask_judges-IsJudged js cfg m now cfg.judge.model_order 0 health))
    where
      by_answer :
          (out : Option (Verdict F) × ℕ × HealthTracker)
          → ((r : Verdict F) → out.0 ≡ some r → IsJudged js cfg m r)
          → let r = (answer_or_heuristic js out).0 in
            IsJudged js cfg m r
            ⊎ ((r.judge_id ≡ "heuristic")
                × (r.complexity_score ≡ js.heuristic.complexity_score)
                × (r.impact_scope ≡ js.heuristic.impact_scope))
      by_answer (some r, attempts, health') h = inl (h r refl)
      by_answer (none, attempts, health') h = inr (refl, refl, refl)
