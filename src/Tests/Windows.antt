-- ===== src/Tests/Windows.antt =====
-- The rate limiter, the threshold and the cycle detector at concrete inputs.
use llmsentinel_router.Prelude.{
  ◌≡◌, ◌≢◌, refl, Bool, true, false, none, List, [], ◌∷◌, arith, length, ◌-◌,
}
use llmsentinel_router.Prelude.Int.{ℤ, pos, ◌<ℤ◌, add64}
use llmsentinel_router.Prelude.Fixed.{fixed, Fixed-IsOrdered}
use llmsentinel_router.Prelude.Map.{lookup, insert}
use llmsentinel_router.Rate.{
  Limits, minute, new, usage, window_usage, check, record_request, sum_tokens,
}
use llmsentinel_router.Rate.Events.{recent}
use llmsentinel_router.Rate.History.{recorded, looked, Entry, step, run, events_of, window_at}
use llmsentinel_router.Rate.Report.{usage-run, check-run, check_starved}
use llmsentinel_router.Threshold
use llmsentinel_router.Threshold.{Dynamic, rate_locked, adjust, count_strong}
use llmsentinel_router.Threshold.Window.{last, add_all, size_of, add_all-window}
use llmsentinel_router.Threshold.Bounds.{InRange, adjust-InRange, adjust-raises}
use llmsentinel_router.Semantic.Hash.{Digest}
use llmsentinel_router.Cycle.{
  Detector, new_detector, detect_prompt, add, Registry, new_registry, get,
}
use llmsentinel_router.Cycle.Sessions
use llmsentinel_router.Cycle.Sessions.{new_registry-IsValid, get-IsValid}
use llmsentinel_router.Cycle.Detection.{new_detector-IsValid, detect-add}

abbrev limits : Limits
limits = record {
  requests_per_minute = pos 4;
  requests_per_day = pos 0;
  tokens_per_minute = pos 1_000;
  tokens_per_day = pos 0;
}

-- Three requests, the first of them more than a minute before the last.
abbrev history : List Entry
history =
    record { time = 5; call = recorded "m" (pos 100) }
    ∷ record { time = 50_000_000_000; call = recorded "m" (pos 20) }
    ∷ record { time = 50_000_000_001; call = looked "n" }
    ∷ record { time = 70_000_000_000; call = recorded "m" (pos 3) }
    ∷ []

usage-run_example :
    (usage "m" 70_000_000_001 (run history (new (pos 950_000)))).1
    ≡ window_usage (window_at 70_000_000_001 "m" history)
usage-run_example =
    usage-run (pos 950_000) history "m" 70_000_000_001
      (ground arith, (ground arith, (ground arith, (ground arith, tt)))) (ground arith)

check_passes : (check "m" limits (pos 10) 70_000_000_001 (run history (new (pos 950_000)))).1 ≡ none
unfolding check run new step record_request lookup insert sum_tokens add64
check_passes = refl

check-run_example :
    pos (length (recent (70_000_000_001 - minute) (events_of "m" history)))
    <ℤ fixed.trunc (fixed.mul (fixed.of_int (pos 4)) (new (pos 950_000)).safety_margin)
check-run_example =
    check-run (pos 950_000) history "m" limits (pos 10) 70_000_000_001
      (ground arith, (ground arith, (ground arith, (ground arith, tt)))) (ground arith) check_passes
      (ground arith)

abbrev one_a_minute : Limits
one_a_minute = record {
  requests_per_minute = pos 1;
  requests_per_day = pos 0;
  tokens_per_minute = pos 0;
  tokens_per_day = pos 0;
}

-- The margin that New sets by default leaves nothing of one request a minute.
check_starved_example : (check "m" one_a_minute (pos 10) 70 (new (pos 950_000))).1 ≢ none
unfolding new
check_starved_example =
    check_starved "m" one_a_minute (pos 10) 70 (new (pos 950_000)) (ground arith) refl

abbrev decisions : List Bool
decisions = true ∷ false ∷ true ∷ true ∷ []

add_all-window_example :
    (add_all decisions (Threshold.new (pos 50_000) (pos 3) (pos 700_000))).window
    ≡ last (size_of (pos 3)) decisions
add_all-window_example = add_all-window (pos 50_000) (pos 3) (pos 700_000) decisions

abbrev escalating : Dynamic ℤ
escalating = record {
  target_rate = pos 50_000;
  window_size = pos 4;
  threshold = pos 985_000;
  window = decisions;
}

abbrev calm : Dynamic ℤ
calm = record {
  target_rate = pos 50_000;
  window_size = pos 2;
  threshold = pos 15_000;
  window = false ∷ false ∷ [];
}

adjust-InRange_example : InRange (adjust escalating).0.threshold
adjust-InRange_example = adjust-InRange Fixed-IsOrdered escalating (refl, refl)

adjust-raises_example : fixed.le escalating.threshold (adjust escalating).0.threshold ≡ true
unfolding rate_locked count_strong
adjust-raises_example = adjust-raises Fixed-IsOrdered escalating (refl, refl) refl

-- A digest that tells texts apart by their first token only.
abbrev digest : Digest
digest = record { tokens = λ text. text ∷ []; sum256 = λ token. 1 ∷ 2 ∷ 3 ∷ 4 ∷ 5 ∷ 6 ∷ 7 ∷ 8 ∷ [] }

abbrev detector : Detector
detector = new_detector "s" (pos 3) (pos 2)

detect-add_example : detect_prompt digest "hi" (add digest "hi" "hello" detector) ≡ true
detect-add_example =
    detect-add digest "hi" "hello" detector (new_detector-IsValid "s" (pos 3) (pos 2))

abbrev registry : Registry
registry = new_registry (pos 2) (pos 3) (pos 50)

get-IsValid_example : Sessions.IsValid (get "c" registry).0
get-IsValid_example = get-IsValid "c" registry (new_registry-IsValid (pos 2) (pos 3) (pos 50))
