-- ===== src/Rate/Report.antt =====
-- What the limiter reports and admits, in terms of the history of its calls.
use llmsentinel_router.Prelude.{
  ℕ, ◌-◌, ◌≤◌, String, ◌==◌, eq_iff, eq_refl, ◌≡◌, refl, ◌≢◌, ap, sym, ◌∙◌, subst, false, none,
  List, [], ◌∷◌, ◌++◌, append-nil, append_assoc, if◌then◌else◌, arith, inl, inr, Bool-cases, length,
}
use llmsentinel_router.Prelude.Int.{ℤ, pos, ◌<ℤ◌}
use llmsentinel_router.Prelude.Float.{Float64}
use llmsentinel_router.Prelude.Map.{lookup, lookup-insert}
use llmsentinel_router.Rate.{
  Event, Window, Usage, Limiter, Limits, minute, day, cleanup, window_usage, window_of, put_window,
  record_request, usage, new, check, refusal,
}
use llmsentinel_router.Rate.Events.{recent, trim-recent}
use llmsentinel_router.Rate.History.{
  Call, recorded, looked, asked, Entry, event_of, events_of, InOrder, last_time, step, run,
  Tracks-later, Tracks-append, Faithful, Faithful-cleanup, window_at,
}

module _ {F : Type 0} ⦃fl : Float64 F⦄ where
  window_of-put_window :
      (l : Limiter F) (m q : String) (w : Window)
      → window_of (put_window l m w) q ≡ (if m == q then w else window_of l q)
  unfolding window_of put_window
  window_of-put_window l m q w = ground (arith, lookup-insert m q w l.windows)

  -- A call that puts the window of `m` back cleaned, with the events that it adds.
  put-Faithful :
      (t now : ℕ) (l : Limiter F) (m q : String) (w : Window) (all extra : List Event)
      → t ≤ now
      → Faithful t (window_of l q) all
      → (m ≡ q → Faithful now w (all ++ extra))
      → ((m == q) ≡ false → extra ≡ [])
      → Faithful now (window_of (put_window l m w) q) (all ++ extra)
  put-Faithful t now l m q w all extra h f same other =
      rw window_of-put_window (elim (Bool-cases (m == q)) [
        | inl e ↦ rw e (same ((eq_iff m q).0 e))
        | inr e ↦ rw e (
            subst (Faithful now (window_of l q))
              (sym (append-nil all) ∙ ap (λ xs. all ++ xs) (sym (other e)))
              (record {
                of_minute = Tracks-later minute t now _ all h f.of_minute;
                of_day = Tracks-later day t now _ all h f.of_day;
              }))
      ])

  looked-Faithful :
      (t now : ℕ) (l : Limiter F) (m q : String) (all : List Event)
      → t ≤ now
      → Faithful t (window_of l q) all
      → Faithful now (window_of (usage m now l).0 q) (all ++ [])
  unfolding usage
  looked-Faithful t now l m q all h f =
      put-Faithful t now l m q (cleanup now (window_of l m)) all [] h f
        (λ e. rw (append-nil, e) (Faithful-cleanup t now (window_of l q) all h f)) (λ e. refl)

  recorded-Faithful :
      (t now : ℕ) (l : Limiter F) (m q : String) (tokens : ℤ) (all : List Event)
      → t ≤ now
      → Faithful t (window_of l q) all
      → Faithful now
          (window_of (record_request m tokens now l) q)
          (all ++ (if m == q then record { at = now; tokens = tokens } ∷ [] else []))
  unfolding record_request
  recorded-Faithful t now l m q tokens all h f =
      let e : Event = record { at = now; tokens = tokens } in
      put-Faithful t now l m q _ all (if m == q then e ∷ [] else []) h f
        (λ p.
          rw (p, eq_refl)
            (Faithful-cleanup now now _ (all ++ e ∷ []) (omega arith) (record {
              of_minute =
                  Tracks-append minute now _ all e refl
                    (Tracks-later minute t now _ all h f.of_minute);
              of_day = Tracks-append day now _ all e refl (Tracks-later day t now _ all h f.of_day);
            })))
        (λ p. rw p)

  step-Faithful :
      (t : ℕ) (x : Entry) (l : Limiter F) (q : String) (all : List Event)
      → t ≤ x.time
      → Faithful t (window_of l q) all
      → Faithful x.time (window_of (step x l) q) (all ++ event_of q x)
  step-Faithful t x l q all h f = by_call x.call x.time h
    where
      by_call :
          (c : Call) (now : ℕ)
          → t ≤ now
          → Faithful now
              (window_of (step (record { time = now; call = c }) l) q)
              (all ++ event_of q (record { time = now; call = c }))
      by_call (recorded m tokens) now h' =
          unfold step event_of in recorded-Faithful t now l m q tokens all h' f
      by_call (looked m) now h' = unfold step event_of in looked-Faithful t now l m q all h' f
      by_call (asked m limits e) now h' =
          unfold step event_of check in looked-Faithful t now l m q all h' f

  run-Faithful :
      (t : ℕ) (xs : List Entry) (l : Limiter F) (q : String) (all : List Event)
      → InOrder t xs
      → Faithful t (window_of l q) all
      → Faithful (last_time t xs) (window_of (run xs l) q) (all ++ events_of q xs)
  unfolding run events_of
  run-Faithful t [] l q all a f = rw append-nil f
  run-Faithful t (x ∷ xs) l q all a f =
      subst (Faithful (last_time x.time xs) (window_of (run xs (step x l)) q))
        (append_assoc all (event_of q x) (events_of q xs))
        (run-Faithful x.time xs (step x l) q (all ++ event_of q x) a.1
          (step-Faithful t x l q all a.0 f))

  new-Faithful : (margin : F) (q : String) → Faithful 0 (window_of (new margin) q) []
  unfolding new window_of lookup
  new-Faithful margin q = record {
    of_minute = record { ordered = tt; past = tt; seen = λ c h. refl };
    of_day = record { ordered = tt; past = tt; seen = λ c h. refl };
  }

  -- After calls in the order of time, the usage that the limiter reports for a model at a later time
  -- is the usage of the model's requests of the last minute and day of the history, whichever calls
  -- have cleaned its windows up in between.
  pub usage-run :
      (margin : F) (xs : List Entry) (q : String) (now : ℕ)
      → InOrder 0 xs
      → last_time 0 xs ≤ now
      → (usage q now (run xs (new margin))).1 ≡ window_usage (window_at now q xs)
  unfolding usage cleanup
  usage-run margin xs q now a h =
      let f = run-Faithful 0 xs (new margin) q [] a (new-Faithful margin q) in
      let w = window_of (run xs (new margin)) q in
      ap window_usage (λ i. record {
        request_minute =
            (trim-recent (now - minute) 0 w.request_minute f.of_minute.ordered
                ∙ f.of_minute.seen (now - minute) (omega arith))
              i;
        request_day =
            (trim-recent (now - day) 0 w.request_day f.of_day.ordered
                ∙ f.of_day.seen (now - day) (omega arith))
              i;
      })

  safety_margin-step : (x : Entry) (l : Limiter F) → (step x l).safety_margin ≡ l.safety_margin
  unfolding step record_request usage check put_window
  safety_margin-step x l = ground arith

  safety_margin-run : (xs : List Entry) (l : Limiter F) → (run xs l).safety_margin ≡ l.safety_margin
  unfolding run
  safety_margin-run [] l = refl
  safety_margin-run (x ∷ xs) l = safety_margin-run xs (step x l) ∙ safety_margin-step x l

  passed-below :
      (margin : F) (limits : Limits) (estimated : ℤ) (u : Usage)
      → refusal margin limits estimated u ≡ none
      → pos 0 <ℤ limits.requests_per_minute
      → pos u.requests_last_minute
        <ℤ fl.trunc (fl.mul (fl.of_int limits.requests_per_minute) margin)
  unfolding refusal
  passed-below margin limits estimated u h p = ground arith

  -- Where Check lets a request pass, the model's requests of the last minute in the history are
  -- fewer than the part of its limit that the safety margin leaves, if it has a limit.
  pub check-run :
      (margin : F) (xs : List Entry) (q : String) (limits : Limits) (estimated : ℤ) (now : ℕ)
      → InOrder 0 xs
      → last_time 0 xs ≤ now
      → (check q limits estimated now (run xs (new margin))).1 ≡ none
      → pos 0 <ℤ limits.requests_per_minute
      → pos (length (recent (now - minute) (events_of q xs)))
        <ℤ fl.trunc (fl.mul (fl.of_int limits.requests_per_minute) (new margin).safety_margin)
  unfolding check window_usage
  check-run margin xs q limits estimated now a h pass p =
      let seen = usage-run margin xs q now a h in
      subst
        (λ m.
          pos (length (recent (now - minute) (events_of q xs)))
          <ℤ fl.trunc (fl.mul (fl.of_int limits.requests_per_minute) m))
        (safety_margin-run xs (new margin))
        (subst
          (λ u.
            pos u.requests_last_minute
            <ℤ fl.trunc
                (fl.mul (fl.of_int limits.requests_per_minute) (run xs (new margin)).safety_margin))
          seen
          (passed-below (run xs (new margin)).safety_margin limits estimated
            (usage q now (run xs (new margin))).1 pass p))

  -- A limit so small that its margin leaves nothing: the model is refused at every usage.
  pub check_starved :
      (q : String) (limits : Limits) (estimated : ℤ) (now : ℕ) (l : Limiter F)
      → pos 0 <ℤ limits.requests_per_minute
      → fl.trunc (fl.mul (fl.of_int limits.requests_per_minute) l.safety_margin) ≡ pos 0
      → (check q limits estimated now l).1 ≢ none
  unfolding check refusal
  check_starved q limits estimated now l p z h = ground arith
