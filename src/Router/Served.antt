-- ===== src/Router/Served.antt =====
-- Where the reply of callCandidates (internal/router/router.go) comes from, and when there is one.
use llmsentinel_router.Prelude.{
  ℕ, suc, ◌+◌, String, ◌++◌, length, ◌≡◌, refl, sym, ap, subst, true, Option, none, List, [], ◌∷◌,
  arith, Option-cases, inl, inr,
}
use llmsentinel_router.Prelude.Int.{ℤ, pos, leb_ℤ}
use llmsentinel_router.Prelude.Float.{Float64}
use llmsentinel_router.Prelude.Map.{lookup}
use llmsentinel_router.Exec.{Error, ok, ok_injective}
use llmsentinel_router.Config.{SentinelConfig, Limits}
use llmsentinel_router.Config.Tiers.{IsIn}
use llmsentinel_router.Rate.{Limiter, check, refusal, reached}
use llmsentinel_router.Router.Models.{Models, candidates}
use llmsentinel_router.Router.Replied.{IsReplied, try_keys-IsReplied, try_keys-answers}
use llmsentinel_router.Router.Calls.{
  Reply, Provider, limits_of, keys_of, name_of, named, try_keys, call_each, call_list,
  call_candidates,
}

-- No limit of a model is set.
abbrev pub IsUnlimited : Limits → Type 0
IsUnlimited limits =
    (leb_ℤ limits.requests_per_minute (pos 0) ≡ true)
    × (leb_ℤ limits.tokens_per_minute (pos 0) ≡ true)
    × (leb_ℤ limits.requests_per_day (pos 0) ≡ true)
    × (leb_ℤ limits.tokens_per_day (pos 0) ≡ true)

module _ {F : Type 0} ⦃fl : Float64 F⦄ where
  -- The limiter after it has checked some candidates in order, from the candidate number `i` on.
  abbrev pub checked : SentinelConfig F → ℤ → (ℕ → ℕ) → List String → ℕ → Limiter F → Limiter F
  checked cfg estimated clock [] i l = l
  checked cfg estimated clock (x ∷ xs) i l =
      checked cfg estimated clock xs (suc i)
        (check x (limits_of (lookup x cfg.models)) estimated (clock i) l).0

  -- A reply that the router passes on, from candidates of which the first has the number `i`, and from
  -- a limiter `l`: it is a call's with one of the keys of a candidate, which the limiter let pass at
  -- its time, after it had checked the candidates before it.
  pub record IsServed (p : Provider F) (cfg : SentinelConfig F) (estimated : ℤ) (clock : ℕ → ℕ)
      (i : ℕ) (l : Limiter F) (ids : List String) (reply : Reply F) (id : String) : Type 0 where
    pub before : List String
    pub behind : List String
    pub one_of : ids ≡ before ++ (id ∷ behind)
    pub passed :
        (check id
          (limits_of (lookup id cfg.models))
          estimated
          (clock (i + length before))
          (checked cfg estimated clock before i l)).1
        ≡ none
    pub raw : Reply F
    pub from_call : IsReplied p id (keys_of cfg (lookup id cfg.models)) raw
    pub same : reply ≡ named (name_of (lookup id cfg.models)) raw

  call_each-IsServed :
      (p : Provider F) (cfg : SentinelConfig F) (estimated : ℤ) (clock : ℕ → ℕ) (ids : List String)
      → (i n : ℕ) (last : Option Error) (l : Limiter F) (reply : Reply F) (id : String)
      → (call_each p cfg estimated clock ids i n last l).0 ≡ ok (reply, id)
      → IsServed p cfg estimated clock i l ids reply id
  unfolding call_each
  call_each-IsServed p cfg estimated clock [] i n last l reply id = λ h. absurd (ground arith)
  call_each-IsServed p cfg estimated clock (x ∷ ids) i n last l reply id =
      let c = check x (limits_of (lookup x cfg.models)) estimated (clock i) l in
      let t = try_keys p x (keys_of cfg (lookup x cfg.models)) n last in
      elim (Option-cases c.1) [
        | inr (reason, refused) ↦ λ h. later (
            call_each-IsServed p cfg estimated clock ids (suc i) n last c.0 reply id
              (ground (arith, refused, h)))
        | inl passed ↦ elim (Option-cases t.0) [
          | inl failed ↦ λ h. later (
              call_each-IsServed p cfg estimated clock ids (suc i) t.1 t.2 c.0 reply id
                (ground (arith, passed, failed, h)))
          | inr (r, answered) ↦ λ h.
              let out : ◌≡◌ {A = Reply F × String} (named (name_of (lookup x cfg.models)) r, x)
                  (reply, id) =
                ok_injective (ground (arith, passed, answered, h)) in
              subst (λ q. IsServed p cfg estimated clock i l (x ∷ ids) q.0 q.1) out
                (record {
                  before = [];
                  behind = ids;
                  one_of = refl;
                  passed =
                      subst
                        (λ k.
                          (check x (limits_of (lookup x cfg.models)) estimated (clock k) l).1
                          ≡ none)
                        here passed;
                  raw = r;
                  from_call =
                      try_keys-IsReplied p x (keys_of cfg (lookup x cfg.models)) n last r answered;
                  same = refl;
                })
        ]
      ]
    where
      here : i ≡ i + 0
      here = omega arith

      shifted : (n : ℕ) → suc i + n ≡ i + suc n
      shifted n = omega arith

      later :
          IsServed p cfg estimated clock
            (suc i)
            (check x (limits_of (lookup x cfg.models)) estimated (clock i) l).0
            ids
            reply
            id
          → IsServed p cfg estimated clock i l (x ∷ ids) reply id
      later s = record {
        before = x ∷ s.before;
        behind = s.behind;
        one_of = ap (λ xs. x ∷ xs) s.one_of;
        passed =
            subst
              (λ k.
                (check id (limits_of (lookup id cfg.models)) estimated (clock k)
                  (checked cfg estimated clock (x ∷ s.before) i l)).1
                ≡ none)
              (shifted (length s.before)) s.passed;
        raw = s.raw;
        from_call = s.from_call;
        same = s.same;
      }

  -- A reply of callCandidates is that of a call with one of the keys of one of the candidates, under the
  -- model's own name where the reply has none. The router's limiter let the candidate pass at its time,
  -- after it had checked each of the candidates before it once, in order.
  pub call_candidates-IsServed :
      (p : Provider F) (cfg : SentinelConfig F) (group : String) (estimated : ℤ) (clock : ℕ → ℕ)
      → (m : Models F) (l : Limiter F) (reply : Reply F) (id : String)
      → (call_candidates p cfg group estimated clock m l).0 ≡ ok (reply, id)
      → IsServed p cfg estimated clock 0 l (candidates cfg group m) reply id
  unfolding call_candidates
  call_candidates-IsServed p cfg group estimated clock m l reply id =
      from_list (candidates cfg group m)
    where
      from_list :
          (ids : List String)
          → (call_list p cfg estimated clock ids l).0 ≡ ok (reply, id)
          → IsServed p cfg estimated clock 0 l ids reply id
      from_list [] h = absurd (ground arith)
      from_list (x ∷ ids) h =
          call_each-IsServed p cfg estimated clock (x ∷ ids) 0 0 none l reply id (ground (arith, h))

  check_unlimited :
      (id : String) (limits : Limits) (estimated : ℤ) (now : ℕ) (l : Limiter F)
      → IsUnlimited limits
      → (check id limits estimated now l).1 ≡ none
  unfolding check refusal reached
  check_unlimited id limits estimated now l (a, b, c, d) = ground arith

  call_each_unlimited :
      (p : Provider F) (cfg : SentinelConfig F) (estimated : ℤ) (clock : ℕ → ℕ) (ids : List String)
      → (i n : ℕ) (last : Option Error) (l : Limiter F) (id key : String) → IsIn id ids
      → IsUnlimited (limits_of (lookup id cfg.models))
      → IsIn key (keys_of cfg (lookup id cfg.models))
      → ((number : ℕ) → (r : Reply F) × (p.call number id key ≡ ok r))
      → (out : Reply F × String) × ((call_each p cfg estimated clock ids i n last l).0 ≡ ok out)
  unfolding call_each
  call_each_unlimited p cfg estimated clock [] i n last l id key here free k always = elim here [ ]
  call_each_unlimited p cfg estimated clock (x ∷ ids) i n last l id key here free k always =
      let c = check x (limits_of (lookup x cfg.models)) estimated (clock i) l in
      let t = try_keys p x (keys_of cfg (lookup x cfg.models)) n last in
      elim here [
        | inl same ↦
            let passed : c.1 ≡ none =
              check_unlimited x (limits_of (lookup x cfg.models)) estimated (clock i) l
                (subst (λ y. IsUnlimited (limits_of (lookup y cfg.models))) (sym same) free) in
            let answer =
              try_keys-answers p x (keys_of cfg (lookup x cfg.models)) n last key
                (subst (λ y. IsIn key (keys_of cfg (lookup y cfg.models))) (sym same) k)
                (λ number.
                  subst (λ y. (r : Reply F) × (p.call number y key ≡ ok r)) (sym same)
                    (always number)) in
            ((named (name_of (lookup x cfg.models)) answer.0, x), ground (arith, passed, answer.1))
        | inr rest ↦ elim (Option-cases c.1) [
          | inr (reason, refused) ↦
              let later =
                call_each_unlimited p cfg estimated clock ids (suc i) n last c.0 id key rest free k
                  always in
              (later.0, ground (arith, refused, later.1))
          | inl passed ↦ elim (Option-cases t.0) [
            | inl failed ↦
                let later =
                  call_each_unlimited p cfg estimated clock ids (suc i) t.1 t.2 c.0 id key rest free
                    k always in
                (later.0, ground (arith, passed, failed, later.1))
            | inr (r, answered) ↦
                ((named (name_of (lookup x cfg.models)) r, x), ground (arith, passed, answered))
          ]
        ]
      ]

  -- Where a candidate has no limits, and one of its keys always gets an answer, callCandidates
  -- succeeds, whatever the candidates before it do.
  pub call_candidates_answered :
      (p : Provider F) (cfg : SentinelConfig F) (group : String) (estimated : ℤ) (clock : ℕ → ℕ)
      → (m : Models F) (l : Limiter F) (id key : String) → IsIn id (candidates cfg group m)
      → IsUnlimited (limits_of (lookup id cfg.models))
      → IsIn key (keys_of cfg (lookup id cfg.models))
      → ((number : ℕ) → (r : Reply F) × (p.call number id key ≡ ok r))
      → (out : Reply F × String) × ((call_candidates p cfg group estimated clock m l).0 ≡ ok out)
  unfolding call_candidates call_list
  call_candidates_answered p cfg group estimated clock m l id key here free k always =
      from_list (candidates cfg group m) here
    where
      from_list :
          (ids : List String)
          → IsIn id ids
          → (out : Reply F × String) × ((call_list p cfg estimated clock ids l).0 ≡ ok out)
      from_list [] h = elim h [ ]
      from_list (x ∷ ids) h =
          call_each_unlimited p cfg estimated clock (x ∷ ids) 0 0 none l id key h free k always
