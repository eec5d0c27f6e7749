-- ===== src/Semantic/Cache.antt =====
-- internal/semantic/cache.go: what each kind of prompt has been routed to. A hash is the text that
-- HashPayload makes of a prompt and its context; `now` is a clock in nanoseconds.
use llmsentinel_router.Prelude.{
  ℕ, ◌+◌, String, ◌==◌, Bool, true, false, ◌||◌, Option, none, some, [], ◌∷◌, if◌then◌else◌, ltb,
  beq,
}
use llmsentinel_router.Prelude.Int.{ℤ, pos, ◌+ℤ◌, leb_ℤ, ltb_ℤ, add64, mul64}
use llmsentinel_router.Prelude.Float.{Float64}
use llmsentinel_router.Prelude.Map.{Map, lookup, insert, delete}

pub record Stats (F : Type 0) : Type 0 where
  pub semantic_hash : String
  pub total_calls : ℕ
  pub weak_calls : ℕ
  pub strong_calls : ℕ
  pub judge_invocations : ℕ
  pub total_latency_ms : F
  pub total_cost : F
  pub total_tokens : ℤ
  pub last_model : String
  pub last_called_at : ℕ
  pub first_seen_at : ℕ

pub record Cache (F : Type 0) : Type 0 where
  pub min_samples : ℤ
  pub confidence_threshold : F
  pub ttl : ℤ
  pub stats : Map (Stats F)

module _ {F : Type 0} where
  -- time.Since(stats.LastCalledAt) > c.ttl deletes the entry.
  unfoldable pub lookup_stats : String → ℕ → Cache F → Cache F × Option (Stats F)
  lookup_stats hash now c = elim (lookup hash c.stats) [
    | none ↦ (c, none)
    | some s ↦
        if ltb_ℤ (pos s.last_called_at +ℤ c.ttl) (pos now)
        then (record c { stats = delete hash c.stats }, none)
        else (c, some s)
  ]

  unfoldable pub reset : Cache F → Cache F
  reset c = record c { stats = [] }

  unfoldable pub load_from_stats : Map (Stats F) → Cache F → Cache F
  load_from_stats [] c = c
  load_from_stats ((hash, entry) ∷ entries) c =
      load_from_stats entries (record c { stats = insert hash entry c.stats })

module _ {F : Type 0} ⦃fl : Float64 F⦄ where
  -- time.Duration(ttlSeconds) * time.Second
  unfoldable pub new_cache : ℤ → F → ℤ → Cache F
  unfolding mul64
  new_cache min_samples confidence_threshold ttl_seconds = record {
    min_samples = if leb_ℤ min_samples (pos 0) then pos 3 else min_samples;
    confidence_threshold =
        if fl.le confidence_threshold (fl.lit 0) then fl.lit 7_500 else confidence_threshold;
    ttl =
        mul64 (if leb_ℤ ttl_seconds (pos 0) then pos 604_800 else ttl_seconds) (pos 1_000_000_000);
    stats = [];
  }

  -- The function `confidence` of a pair of counts.
  unfoldable pub confidence : Stats F → F
  confidence s =
      let routable = s.weak_calls + s.strong_calls in
      if beq routable 0
      then fl.lit 0
      else (let max_calls =
            if ltb s.weak_calls s.strong_calls then s.strong_calls else s.weak_calls in
          fl.div (fl.of_int (pos max_calls)) (fl.of_int (pos routable)))

  -- The method `Confidence`.
  unfoldable pub confidence_of : String → Cache F → F
  unfolding confidence
  confidence_of hash c = elim (lookup hash c.stats) [ none ↦ fl.lit 0 | some s ↦ confidence s ]

  -- The results of ConfidentRoute for the statistics that it finds: route, confidence and ok.
  unfoldable pub route_of : ℤ → F → Option (Stats F) → String × F × Bool
  unfolding confidence
  route_of min_samples confidence_threshold none = ("", fl.lit 0, false)
  route_of min_samples confidence_threshold (some s) =
      let conf = confidence s in
      if ltb_ℤ (pos s.total_calls) min_samples || fl.lt conf confidence_threshold
      then ("", conf, false)
      else if ltb s.strong_calls s.weak_calls
      then ("weak", conf, true)
      else if ltb s.weak_calls s.strong_calls
      then ("strong", conf, true)
      else ("", conf, false)

  unfoldable pub confident_route : String → ℕ → Cache F → Cache F × String × F × Bool
  unfolding lookup_stats route_of
  confident_route hash now c =
      let (c', found) = lookup_stats hash now c in
      let (route, conf, sure) = route_of c.min_samples c.confidence_threshold found in
      (c', route, conf, sure)

  abbrev pub unseen : String → ℕ → Stats F
  unseen hash now = record {
    semantic_hash = hash;
    total_calls = 0;
    weak_calls = 0;
    strong_calls = 0;
    judge_invocations = 0;
    total_latency_ms = fl.lit 0;
    total_cost = fl.lit 0;
    total_tokens = pos 0;
    last_model = "";
    last_called_at = 0;
    first_seen_at = now;
  }

  -- One call added to the statistics of its kind.
  unfoldable pub counted : String → String → F → Bool → F → ℤ → ℕ → Stats F → Stats F
  counted model route latency judged cost tokens now s = record s {
    total_calls = s.total_calls + 1;
    weak_calls = if route == "strong" then s.weak_calls else s.weak_calls + 1;
    strong_calls = if route == "strong" then s.strong_calls + 1 else s.strong_calls;
    judge_invocations = if judged then s.judge_invocations + 1 else s.judge_invocations;
    total_latency_ms = fl.add s.total_latency_ms latency;
    total_cost = fl.add s.total_cost cost;
    total_tokens = add64 s.total_tokens tokens;
    last_model = model;
    last_called_at = now;
  }

  unfoldable pub record_call : String → String → String → F → Bool → F → ℤ → ℕ → Cache F → Cache F
  unfolding counted
  record_call hash model route latency judged cost tokens now c =
      let s : Stats F = elim (lookup hash c.stats) [ none ↦ unseen hash now | some s ↦ s ] in
      record c {
        stats = insert hash (counted model route latency judged cost tokens now s) c.stats;
      }
