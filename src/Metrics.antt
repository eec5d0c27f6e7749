-- ===== src/Metrics.antt =====
-- internal/metrics/metrics.go: the Collector. An event is a value of any type; what is written to the
-- file is not modelled.
pub mod Aggregate
pub mod Figures
use llmsentinel_router.Prelude.{
  ℕ, ◌-◌, ◌≤◌, ◌<◌, ◌≡◌, ◌||◌, List, [], ◌∷◌, ◌++◌, if◌then◌else◌, arith, ltb, length, drop,
  length-drop,
}
use llmsentinel_router.Prelude.Int.{ℤ, pos, pos_part, leb_ℤ, ltb_ℤ}

pub record Collector (A : Type 0) : Type 0 where
  pub recent : List A
  pub limit : ℕ

unfoldable pub new_collector : (A : Type 0) → Collector A
new_collector A = record { recent = []; limit = 1_000 }

module _ {A : Type 0} where
  unfoldable pub record_event : A → Collector A → Collector A
  record_event e c =
      let all = c.recent ++ e ∷ [] in
      record c {
        recent = if ltb c.limit (length all) then drop (length all - c.limit) all else all;
      }

  unfoldable pub recent_events : ℤ → Collector A → List A
  recent_events limit c =
      let n = length c.recent in
      let all = leb_ℤ limit (pos 0) || ltb_ℤ (pos n) limit in
      drop (n - (if all then n else pos_part limit)) c.recent

  unfoldable pub reset : Collector A → Collector A
  reset c = record c { recent = [] }

  -- Record keeps no more events than the limit.
  pub record_event-length : (e : A) (c : Collector A) → length (record_event e c).recent ≤ c.limit
  unfolding record_event
  record_event-length e c =
      let all = c.recent ++ e ∷ [] in ground (arith, length-drop (length all - c.limit) all)

  -- Recent gives as many events as it is asked for, where there are so many.
  pub recent_events-length :
      (n : ℕ) (c : Collector A) → 0 < n → n ≤ length c.recent → length (recent_events (pos n) c) ≡ n
  unfolding recent_events
  recent_events-length n c p h = ground (arith, length-drop (length c.recent - n) c.recent)
