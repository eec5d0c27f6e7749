-- ===== src/Judge/Health.antt =====
-- internal/judge/health.go: a circuit breaker for each judge. `now` is time.Now(), in nanoseconds.
use llmsentinel_router.Prelude.{ℕ, ◌+◌, String, Bool, true, Option, none, some, [], if◌then◌else◌}
use llmsentinel_router.Prelude.Int.{ℤ, pos, ◌+ℤ◌, ltb_ℤ, leb_ℤ, mul64}
use llmsentinel_router.Prelude.Map.{Map, lookup, insert, delete}

pub record HealthTracker : Type 0 where
  pub failure_threshold : ℤ
  pub cooldown : ℤ
  pub failures : Map ℕ
  pub circuit_open_until : Map ℤ
  pub last_failure : Map ℕ

-- time.Duration(cooldownSeconds) * time.Second
unfoldable pub new_health_tracker : ℤ → ℤ → HealthTracker
unfolding mul64
new_health_tracker failure_threshold cooldown_seconds = record {
  failure_threshold = if leb_ℤ failure_threshold (pos 0) then pos 3 else failure_threshold;
  cooldown =
      mul64 (if leb_ℤ cooldown_seconds (pos 0) then pos 60 else cooldown_seconds)
        (pos 1_000_000_000);
  failures = [];
  circuit_open_until = [];
  last_failure = [];
}

unfoldable pub is_available : String → ℕ → HealthTracker → Bool
is_available judge now h = elim (lookup judge h.circuit_open_until) [
  | none ↦ true
  | some until ↦ ltb_ℤ until (pos now)
]

unfoldable pub record_success : String → HealthTracker → HealthTracker
record_success judge h = record h {
  failures = delete judge h.failures;
  circuit_open_until = delete judge h.circuit_open_until;
  last_failure = delete judge h.last_failure;
}

-- The zero of a key that is not there.
abbrev pub count_of : Option ℕ → ℕ
count_of none = 0
count_of (some n) = n

unfoldable pub record_failure : String → ℕ → HealthTracker → HealthTracker
record_failure judge now h =
    let n = count_of (lookup judge h.failures) + 1 in
    record h {
      failures = insert judge n h.failures;
      last_failure = insert judge now h.last_failure;
      circuit_open_until =
          if leb_ℤ h.failure_threshold (pos n)
          then insert judge (pos now +ℤ h.cooldown) h.circuit_open_until
          else h.circuit_open_until;
    }
