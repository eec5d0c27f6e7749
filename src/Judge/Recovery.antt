-- ===== src/Judge/Recovery.antt =====
-- The circuit breaker against the history of a judge: its state is what the history says.
use llmsentinel_router.Prelude.{
  ℕ, suc, ◌+◌, String, ◌==◌, eq_iff, eq_refl, ◌≡◌, refl, Bool, true, false, Option, none, some,
  List, [], ◌∷◌, if◌then◌else◌, arith, Bool-cases, inl, inr,
}
use llmsentinel_router.Prelude.Int.{ℤ, pos, ◌+ℤ◌, ltb_ℤ, leb_ℤ}
use llmsentinel_router.Prelude.Map.{lookup, lookup-insert, lookup-delete}
use llmsentinel_router.Judge.Health.{
  HealthTracker, new_health_tracker, is_available, record_success, record_failure, count_of,
}

pub data Event : Type 0 where
  succeeded : String → Event
  failed : String → ℕ → Event

unfoldable pub step : Event → HealthTracker → HealthTracker
unfolding record_success record_failure
step (succeeded j) h = record_success j h
step (failed j now) h = record_failure j now h

-- The events are in a list with the latest first.
unfoldable pub run : List Event → HealthTracker → HealthTracker
unfolding step
run [] h = h
run (e ∷ es) h = step e (run es h)

-- The failures of a judge since its last success.
abbrev pub failures_in_a_row : String → List Event → ℕ
failures_in_a_row q [] = 0
failures_in_a_row q (succeeded j ∷ es) =
    let rest = failures_in_a_row q es in if j == q then 0 else rest
failures_in_a_row q (failed j now ∷ es) =
    let rest = failures_in_a_row q es in if j == q then suc rest else rest

-- The time of the last failure of a judge, where it has not succeeded since.
abbrev pub last_failure_of : String → List Event → Option ℕ
last_failure_of q [] = none
last_failure_of q (succeeded j ∷ es) =
    let rest = last_failure_of q es in if j == q then none else rest
last_failure_of q (failed j now ∷ es) =
    let rest = last_failure_of q es in if j == q then some now else rest

-- The end of the time for which a judge is shut out: the last failure and the cooldown, where the
-- failures in a row have reached the threshold.
abbrev pub shut_until : ℤ → ℤ → ℕ → Option ℕ → Option ℤ
shut_until threshold cooldown failures none = none
shut_until threshold cooldown failures (some at) =
    if leb_ℤ threshold (pos failures) then some (pos at +ℤ cooldown) else none

-- What the health of a judge has to be after a history.
pub record Agrees (h₀ h : HealthTracker) (es : List Event) (q : String) : Type 0 where
  pub same_threshold : h.failure_threshold ≡ h₀.failure_threshold
  pub same_cooldown : h.cooldown ≡ h₀.cooldown
  pub failures : count_of (lookup q h.failures) ≡ failures_in_a_row q es
  pub open_until :
      lookup q h.circuit_open_until
      ≡ shut_until h₀.failure_threshold h₀.cooldown (failures_in_a_row q es) (last_failure_of q es)

shut_early :
    (t : ℤ) (n : ℕ) (at : Option ℕ) (c : ℤ)
    → leb_ℤ t (pos (suc n)) ≡ false
    → shut_until t c n at ≡ none
shut_early t n none c h = refl
shut_early t n (some at) c h = ground arith

Agrees-step :
    (h₀ h : HealthTracker) (e : Event) (es : List Event) (q : String)
    → Agrees h₀ h es q
    → Agrees h₀ (step e h) (e ∷ es) q
unfolding step record_success record_failure
Agrees-step h₀ h (succeeded j) es q a = elim (Bool-cases (j == q)) [
  | inl same ↦ record {
    same_threshold = a.same_threshold;
    same_cooldown = a.same_cooldown;
    failures = rw (lookup-delete, same) refl;
    open_until = rw (lookup-delete, same) refl;
  }
  | inr other ↦ record {
    same_threshold = a.same_threshold;
    same_cooldown = a.same_cooldown;
    failures = rw (lookup-delete, other) a.failures;
    open_until = rw (lookup-delete, other) a.open_until;
  }
]
Agrees-step h₀ h (failed j now) es q a = elim (Bool-cases (j == q)) [
  | inl same ↦ record {
    same_threshold = a.same_threshold;
    same_cooldown = a.same_cooldown;
    failures = ground (
      arith,
      eq_iff j q,
      eq_refl q,
      lookup-insert j q (count_of (lookup j h.failures) + 1) h.failures,
    );
    open_until = ground (
      arith,
      eq_iff j q,
      same,
      a.failures,
      a.same_threshold,
      a.same_cooldown,
      a.open_until,
      shut_early h₀.failure_threshold (failures_in_a_row q es) (last_failure_of q es) h₀.cooldown,
      lookup-insert j q (pos now +ℤ h.cooldown) h.circuit_open_until,
    );
  }
  | inr other ↦ record {
    same_threshold = a.same_threshold;
    same_cooldown = a.same_cooldown;
    failures = rw (lookup-insert, other) a.failures;
    open_until = ground (
      arith,
      other,
      a.open_until,
      lookup-insert j q (pos now +ℤ h.cooldown) h.circuit_open_until,
    );
  }
]

Agrees-run :
    (threshold cooldown : ℤ) (es : List Event) (q : String)
    → let h₀ = new_health_tracker threshold cooldown in Agrees h₀ (run es h₀) es q
unfolding run new_health_tracker lookup
Agrees-run threshold cooldown [] q = record {
  same_threshold = refl;
  same_cooldown = refl;
  failures = refl;
  open_until = refl;
}
Agrees-run threshold cooldown (e ∷ es) q =
    let h₀ = new_health_tracker threshold cooldown in
    Agrees-step h₀ (run es h₀) e es q (Agrees-run threshold cooldown es q)

-- Whether a judge is available: its failures in a row are too few, or the last of them is long ago.
abbrev pub available_by : ℤ → ℤ → ℕ → ℕ → Option ℕ → Bool
available_by threshold cooldown now failures none = true
available_by threshold cooldown now failures (some at) =
    if leb_ℤ threshold (pos failures) then ltb_ℤ (pos at +ℤ cooldown) (pos now) else true

available_by-shut_until :
    (t c : ℤ) (now n : ℕ) (at : Option ℕ) (until : Option ℤ)
    → until ≡ shut_until t c n at
    → elim until [ none ↦ true | some u ↦ ltb_ℤ u (pos now) ] ≡ available_by t c now n at
available_by-shut_until t c now n none until h = ground arith
available_by-shut_until t c now n (some at) until h = ground arith

-- After any history of successes and failures of a new tracker, a judge is available at a time just
-- where its failures since its last success are fewer than the threshold, or the cooldown has passed
-- since the last of them.
pub run-is_available :
    (threshold cooldown : ℤ) (es : List Event) (q : String) (now : ℕ)
    → let h₀ = new_health_tracker threshold cooldown in
      is_available q now (run es h₀)
      ≡ available_by h₀.failure_threshold h₀.cooldown now
          (failures_in_a_row q es)
          (last_failure_of q es)
unfolding is_available
run-is_available threshold cooldown es q now =
    let h₀ = new_health_tracker threshold cooldown in
    available_by-shut_until h₀.failure_threshold h₀.cooldown now (failures_in_a_row q es)
      (last_failure_of q es) (lookup q (run es h₀).circuit_open_until)
      (Agrees-run threshold cooldown es q).open_until
