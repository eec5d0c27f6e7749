-- ===== src/Metrics/Figures.antt =====
-- What the figures of the dashboard have to do with the events.
use llmsentinel_router.Prelude.{
  ℕ, zero, suc, ◌+◌, ◌<◌, ◌≡◌, refl, Bool, ◌⊎◌, inl, inr, List, [], ◌∷◌, ◌++◌, String, true, false,
  ◌==◌, ◌∙◌, if◌then◌else◌, arith, length, Bool-cases,
}
use llmsentinel_router.Prelude.Float.{Float64, IsOrdered, ◌≼◌}
use llmsentinel_router.Metrics.Aggregate.{
  Metric, Tally, count_event, tally_all, no_tally, place_value, sorted, value_at, index_of,
  percentile, aggregate_latency, aggregate_of, sample,
}

abbrev pub Among : {F : Type 0} → F → List F → Type 0
Among x [] = ⊥
Among x (y ∷ ys) = (y ≡ x) ⊎ Among x ys

module _ {F : Type 0} ⦃fl : Float64 F⦄ where
  place_value-Among : (x z : F) (ys : List F) → Among z (place_value x ys) → (x ≡ z) ⊎ Among z ys
  unfolding place_value
  place_value-Among x z [] h = h
  place_value-Among x z (y ∷ ys) h = elim (Bool-cases (fl.lt x y)) [
    | inl e ↦ ground (arith, e, h)
    | inr e ↦
        let later : (y ≡ z) ⊎ Among z (place_value x ys) = ground (arith, e, h) in
        elim later [
          | inl same ↦ inr (inl same)
          | inr rest ↦ elim (place_value-Among x z ys rest) [ inl s ↦ inl s | inr r ↦ inr (inr r) ]
        ]
  ]

  sorted-Among : (z : F) (xs : List F) → Among z (sorted xs) → Among z xs
  unfolding sorted
  sorted-Among z [] h = h
  sorted-Among z (x ∷ xs) h = elim (place_value-Among x z (sorted xs) h) [
    | inl same ↦ inl same
    | inr rest ↦ inr (sorted-Among z xs rest)
  ]

  length-place_value : (x : F) (ys : List F) → length (place_value x ys) ≡ suc (length ys)
  unfolding place_value
  length-place_value x [] = refl
  length-place_value x (y ∷ ys) = elim (Bool-cases (fl.lt x y)) [
    | inl e ↦ rw e refl
    | inr e ↦ rw e (omega (arith, length-place_value x ys))
  ]

  length-sorted : (xs : List F) → length (sorted xs) ≡ length xs
  unfolding sorted
  length-sorted [] = refl
  length-sorted (x ∷ xs) = omega (arith, length-place_value x (sorted xs), length-sorted xs)

  value_at-Among : (xs : List F) (i : ℕ) → i < length xs → Among (value_at xs i) xs
  value_at-Among [] i h = absurd (omega (arith, h))
  value_at-Among (x ∷ xs) zero h = inl refl
  value_at-Among (x ∷ xs) (suc i) h = inr (value_at-Among xs i (omega (arith, h)))

  index_of_lt : (p : F) (n : ℕ) → 0 < n → index_of p n < n
  unfolding index_of
  index_of_lt p n h = ground arith

  percentile-Among : (x : F) (xs : List F) (p : F) → Among (percentile (sorted (x ∷ xs)) p) (x ∷ xs)
  unfolding percentile
  percentile-Among x xs p =
      let values = sorted (x ∷ xs) in
      sorted-Among (percentile values p) (x ∷ xs) (
        value_at-Among values (index_of p (length values))
          (index_of_lt p (length values) (omega (arith, length-sorted (x ∷ xs)))))

  -- The figures of a latency with samples: as many as there are, and both percentiles are samples.
  pub aggregate_latency-Among :
      (x : F) (xs : List F)
      → ((aggregate_latency (x ∷ xs)).count ≡ suc (length xs))
        × Among (aggregate_latency (x ∷ xs)).p50_ms (x ∷ xs)
        × Among (aggregate_latency (x ∷ xs)).p95_ms (x ∷ xs)
  unfolding aggregate_latency
  aggregate_latency-Among x xs = (
    length-sorted (x ∷ xs),
    percentile-Among x xs (fl.lit 5_000),
    percentile-Among x xs (fl.lit 9_500),
  )

  count-aggregate_latency : (xs : List F) → (aggregate_latency xs).count ≡ length xs
  unfolding aggregate_latency
  count-aggregate_latency [] = refl
  count-aggregate_latency (x ∷ xs) = length-sorted (x ∷ xs)

length-append : {A : Type 0} (xs ys : List A) → length (xs ++ ys) ≡ length xs + length ys
length-append [] ys = omega arith
length-append (x ∷ xs) ys = omega (arith, length-append xs ys)

module _ {F : Type 0} where
  -- The counts of the loop agree with what it has collected.
  record IsCounted (t : Tally F) : Type 0 where
    calls : length t.judge_values ≡ t.judge_calls
    chained : length t.chain ≡ t.fallbacks

  IsCounted-if :
      (b : Bool) (t t' : Tally F) → IsCounted t → IsCounted t' → IsCounted (if b then t else t')
  IsCounted-if true t t' h k = h
  IsCounted-if false t t' h k = k

  count_event-IsCounted : (m : Metric F) (t : Tally F) → IsCounted t → IsCounted (count_event m t)
  unfolding count_event
  count_event-IsCounted m t h =
      IsCounted-if (m.type == "judge_latency") _ _
        (record {
          calls = omega (arith, h.calls, length-append t.judge_values (sample m.latency_ms));
          chained = h.chained;
        })
        (IsCounted-if (m.type == "weak_model_latency") _ _
          (record { calls = h.calls; chained = h.chained })
          (IsCounted-if (m.type == "strong_model_latency") _ _
            (record { calls = h.calls; chained = h.chained })
            (IsCounted-if (m.type == "overall_request_latency") _ _
              (record { calls = h.calls; chained = h.chained })
              (IsCounted-if (m.type == "judge_skip") _ _
                (record { calls = h.calls; chained = h.chained })
                (IsCounted-if (m.type == "judge_timeout_escalation") _ _
                  (record { calls = h.calls; chained = h.chained })
                  (IsCounted-if _ _ _
                    (record {
                      calls = h.calls;
                      chained = omega (arith, h.chained, length-append t.chain (m ∷ []));
                    })
                    (record { calls = h.calls; chained = h.chained })))))))

  tally_all-IsCounted :
      (ms : List (Metric F)) (t : Tally F) → IsCounted t → IsCounted (tally_all ms t)
  unfolding tally_all
  tally_all-IsCounted [] t h = h
  tally_all-IsCounted (m ∷ ms) t h =
      tally_all-IsCounted ms (if m.status == "error" then t else count_event m t)
        (IsCounted-if (m.status == "error") t (count_event m t) h (count_event-IsCounted m t h))

module _ {F : Type 0} ⦃fl : Float64 F⦄ (o : IsOrdered F) where
  -- The dashboard counts as many calls of judges as it has latencies of them, and as many fallbacks as
  -- its chain has; and its rate of skipped calls is a number of the unit interval.
  pub aggregate_of-consistent :
      (label : ℕ → String) (ms recent : List (Metric F))
      → let a = aggregate_of label ms recent in
        (a.judge_latency.count ≡ a.judge_call_count)
        × (length a.fallback_chain ≡ a.total_fallbacks)
        × (fl.lit 0 ≼ a.judge_skip_rate)
        × (a.judge_skip_rate ≼ fl.lit 10_000)
  unfolding aggregate_of no_tally
  aggregate_of-consistent label ms recent =
      let t = tally_all ms no_tally in
      let counted : IsCounted t =
        tally_all-IsCounted ms no_tally (record { calls = refl; chained = refl }) in
      let zero_num = o.lit_mono 0 0 (omega arith) in
      let zero_one = o.lit_mono 0 10_000 (omega arith) in
      let judged = t.judge_calls + t.judge_skips in
      (
        count-aggregate_latency t.judge_values ∙ counted.calls,
        counted.chained,
        ground (arith, zero_num, o.ratio_unit t.judge_skips judged (omega arith)),
        ground (arith, zero_one, o.ratio_unit t.judge_skips judged (omega arith)),
      )
