-- ===== src/Metrics/Aggregate.antt =====
-- internal/metrics/aggregate.go: the figures of the dashboard from the recent events. An event is what
-- the code reads of its map: floatMetric of the latency is an `Option`, and a time is in milliseconds.
-- Latencies are not NaN.
use llmsentinel_router.Prelude.{
  ℕ, zero, suc, ◌+◌, ◌-◌, ◌/◌, String, ◌==◌, ◌||◌, Option, none, some, List, [], ◌∷◌, ◌++◌,
  if◌then◌else◌, ltb, beq, length, map, drop,
}
use llmsentinel_router.Prelude.Int.{ℤ, pos, negsuc, pos_part, ltb_ℤ, leb_ℤ, ◌+ℤ◌, sub_ℕ}
use llmsentinel_router.Prelude.Float.{Float64}
use llmsentinel_router.Prelude.Map.{Map, lookup, insert}
use llmsentinel_router.Metrics.{Collector, recent_events}

pub record Metric (F : Type 0) : Type 0 where
  pub type : String
  pub status : String
  pub latency_ms : Option F
  pub reason : Option String
  pub timestamp : ℕ

pub record LatencyAggregate (F : Type 0) : Type 0 where
  pub avg_ms : F
  pub p50_ms : F
  pub p95_ms : F
  pub count : ℕ

-- The samples of one minute.
pub record Bucket (F : Type 0) : Type 0 where
  pub judge : List F
  pub weak : List F
  pub strong : List F
  pub overall : List F

pub record Series (F : Type 0) : Type 0 where
  pub labels : List String
  pub judge : List F
  pub weak : List F
  pub strong : List F
  pub overall : List F

pub record DashboardAggregate (F : Type 0) : Type 0 where
  pub total_fallbacks : ℕ
  pub judge_latency : LatencyAggregate F
  pub weak_model_latency : LatencyAggregate F
  pub strong_model_latency : LatencyAggregate F
  pub latency_series : Series F
  pub judge_success_rate : F
  pub judge_skip_rate : F
  pub judge_skip_count : ℕ
  pub judge_call_count : ℕ
  pub judge_fallback_count : ℕ
  pub judge_breakdown : Map ℕ
  pub fallback_chain : List (Metric F)
  pub recent_metrics_sample : List (Metric F)

-- What the loop collects.
pub record Tally (F : Type 0) : Type 0 where
  pub judge_values : List F
  pub weak_values : List F
  pub strong_values : List F
  pub buckets : List (ℕ × Bucket F)
  pub judge_calls : ℕ
  pub judge_skips : ℕ
  pub judge_fallbacks : ℕ
  pub fallbacks : ℕ
  pub breakdown : Map ℕ
  pub chain : List (Metric F)

abbrev or_zero : Option ℕ → ℕ
or_zero none = 0
or_zero (some n) = n

module _ {F : Type 0} where
  abbrev empty_bucket : Bucket F
  empty_bucket = record { judge = []; weak = []; strong = []; overall = [] }

  -- The bucket of a minute, which is made where there is none.
  unfoldable pub in_bucket : ℕ → (Bucket F → Bucket F) → List (ℕ × Bucket F) → List (ℕ × Bucket F)
  in_bucket k f [] = (k, f empty_bucket) ∷ []
  in_bucket k f ((i, b) ∷ bs) = if beq i k then (i, f b) ∷ bs else (i, b) ∷ in_bucket k f bs

  -- The sample of an event, if it has one.
  abbrev pub sample : Option F → List F
  sample none = []
  sample (some v) = v ∷ []

  -- One round of the loop, for an event that is no error.
  unfoldable pub count_event : Metric F → Tally F → Tally F
  unfolding in_bucket
  count_event m t =
      let minute = m.timestamp / 60_000 in
      let vs = sample m.latency_ms in
      if m.type == "judge_latency"
      then record t {
        judge_values = t.judge_values ++ vs;
        buckets = in_bucket minute (λ b. record b { judge = b.judge ++ vs }) t.buckets;
        judge_calls = t.judge_calls + length vs;
      }
      else if m.type == "weak_model_latency"
      then record t {
        weak_values = t.weak_values ++ vs;
        buckets = in_bucket minute (λ b. record b { weak = b.weak ++ vs }) t.buckets;
      }
      else if m.type == "strong_model_latency"
      then record t {
        strong_values = t.strong_values ++ vs;
        buckets = in_bucket minute (λ b. record b { strong = b.strong ++ vs }) t.buckets;
      }
      else if m.type == "overall_request_latency"
      then record t {
        buckets = in_bucket minute (λ b. record b { overall = b.overall ++ vs }) t.buckets;
      }
      else if m.type == "judge_skip"
      then record t {
        buckets = in_bucket minute (λ b. b) t.buckets;
        judge_skips = suc t.judge_skips;
        breakdown = elim m.reason [
          | none ↦ t.breakdown
          | some reason ↦ insert reason (suc (or_zero (lookup reason t.breakdown))) t.breakdown
        ];
      }
      else if m.type == "judge_timeout_escalation"
      then record t {
        buckets = in_bucket minute (λ b. b) t.buckets;
        judge_fallbacks = suc t.judge_fallbacks;
      }
      else if m.type == "weak_model_fallback"
          || m.type == "strong_model_fallback"
          || m.type == "fallback"
      then record t {
        buckets = in_bucket minute (λ b. b) t.buckets;
        fallbacks = suc t.fallbacks;
        chain = t.chain ++ m ∷ [];
      }
      else record t { buckets = in_bucket minute (λ b. b) t.buckets }

  unfoldable pub tally_all : List (Metric F) → Tally F → Tally F
  unfolding count_event
  tally_all [] t = t
  tally_all (m ∷ ms) t = tally_all ms (if m.status == "error" then t else count_event m t)

  unfoldable pub no_tally : Tally F
  no_tally = record {
    judge_values = [];
    weak_values = [];
    strong_values = [];
    buckets = [];
    judge_calls = 0;
    judge_skips = 0;
    judge_fallbacks = 0;
    fallbacks = 0;
    breakdown = [];
    chain = [];
  }

  -- sort.Slice of the minutes, each of which stands once.
  unfoldable pub place_minute : ℕ × Bucket F → List (ℕ × Bucket F) → List (ℕ × Bucket F)
  place_minute x [] = x ∷ []
  place_minute x (y ∷ ys) = if ltb x.0 y.0 then x ∷ y ∷ ys else y ∷ place_minute x ys

  unfoldable pub by_minute : List (ℕ × Bucket F) → List (ℕ × Bucket F)
  unfolding place_minute
  by_minute [] = []
  by_minute (x ∷ xs) = place_minute x (by_minute xs)

module _ {F : Type 0} ⦃fl : Float64 F⦄ where
  -- sort.Float64s
  unfoldable pub place_value : F → List F → List F
  place_value x [] = x ∷ []
  place_value x (y ∷ ys) = if fl.lt x y then x ∷ y ∷ ys else y ∷ place_value x ys

  unfoldable pub sorted : List F → List F
  unfolding place_value
  sorted [] = []
  sorted (x ∷ xs) = place_value x (sorted xs)

  -- math.Round: half away from zero
  unfoldable pub round : F → ℤ
  round x =
      let t = fl.trunc x in
      let rest = fl.sub x (fl.of_int t) in
      if fl.le (fl.lit 5_000) (fl.abs rest)
      then (if fl.lt rest (fl.lit 0) then t +ℤ negsuc 0 else t +ℤ pos 1)
      else t

  -- values[index], for an index within the list
  abbrev pub value_at : List F → ℕ → F
  value_at [] i = fl.lit 0
  value_at (x ∷ xs) zero = x
  value_at (x ∷ xs) (suc i) = value_at xs i

  -- The index of percentile, within bounds.
  unfoldable pub index_of : F → ℕ → ℕ
  unfolding round
  index_of p n =
      let index = round (fl.mul p (fl.of_int (pos (n - 1)))) in
      if ltb_ℤ index (pos 0) then 0 else if leb_ℤ (pos n) index then n - 1 else pos_part index

  unfoldable pub percentile : List F → F → F
  unfolding index_of
  percentile values p = value_at values (index_of p (length values))

  unfoldable pub sum_of : F → List F → F
  sum_of s [] = s
  sum_of s (x ∷ xs) = sum_of (fl.add s x) xs

  unfoldable pub avg : List F → F
  unfolding sum_of
  avg [] = fl.lit 0
  avg (x ∷ xs) = fl.div (sum_of (fl.lit 0) (x ∷ xs)) (fl.of_int (pos (length (x ∷ xs))))

  unfoldable pub aggregate_latency : List F → LatencyAggregate F
  unfolding avg percentile sorted
  aggregate_latency [] = record {
    avg_ms = fl.lit 0;
    p50_ms = fl.lit 0;
    p95_ms = fl.lit 0;
    count = 0;
  }
  aggregate_latency (x ∷ xs) =
      let values = sorted (x ∷ xs) in
      record {
        avg_ms = avg values;
        p50_ms = percentile values (fl.lit 5_000);
        p95_ms = percentile values (fl.lit 9_500);
        count = length values;
      }

  -- `label` is the text of a minute.
  unfoldable pub series_of : (ℕ → String) → List (ℕ × Bucket F) → Series F
  unfolding avg
  series_of label bs = record {
    labels = map (λ b. label b.0) bs;
    judge = map (λ b. avg b.1.judge) bs;
    weak = map (λ b. avg b.1.weak) bs;
    strong = map (λ b. avg b.1.strong) bs;
    overall = map (λ b. avg b.1.overall) bs;
  }

  unfoldable pub aggregate_of :
      (ℕ → String) → List (Metric F) → List (Metric F) → DashboardAggregate F
  unfolding tally_all no_tally aggregate_latency series_of by_minute
  aggregate_of label metrics recent =
      let t = tally_all metrics no_tally in
      let judged = t.judge_calls + t.judge_skips in
      record {
        total_fallbacks = t.fallbacks;
        judge_latency = aggregate_latency t.judge_values;
        weak_model_latency = aggregate_latency t.weak_values;
        strong_model_latency = aggregate_latency t.strong_values;
        latency_series = series_of label (by_minute t.buckets);
        judge_success_rate =
            if ltb 0 t.judge_calls
            then fl.div (fl.of_int (sub_ℕ t.judge_calls t.judge_fallbacks))
                (fl.of_int (pos t.judge_calls))
            else fl.lit 0;
        judge_skip_rate =
            if ltb 0 judged
            then fl.div (fl.of_int (pos t.judge_skips)) (fl.of_int (pos judged))
            else fl.lit 0;
        judge_skip_count = t.judge_skips;
        judge_call_count = t.judge_calls;
        judge_fallback_count = t.judge_fallbacks;
        judge_breakdown = t.breakdown;
        fallback_chain = t.chain;
        recent_metrics_sample = recent;
      }

  -- DashboardAggregate: Recent bounds its events by the limit where that is positive, and else by what
  -- there is, which is cut to 10000.
  unfoldable pub dashboard_aggregate :
      (ℕ → String) → ℤ → Collector (Metric F) → DashboardAggregate F
  unfolding aggregate_of recent_events
  dashboard_aggregate label limit c =
      let metrics = recent_events limit c in
      let bound = if leb_ℤ limit (pos 0) then 10_000 else pos_part limit in
      aggregate_of label (drop (length metrics - bound) metrics) (recent_events (pos 50) c)
