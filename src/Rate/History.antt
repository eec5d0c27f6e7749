-- ===== src/Rate/History.antt =====
-- The limiter against the history of its calls: what it reports is what the history says, however
-- its windows were cleaned up in between.
use llmsentinel_router.Prelude.{
  ℕ, ◌-◌, ◌≤◌, String, ◌==◌, ◌≡◌, ap, sym, ◌∙◌, List, [], ◌∷◌, ◌++◌, if◌then◌else◌, arith,
}
use llmsentinel_router.Prelude.Int.{ℤ}
use llmsentinel_router.Prelude.Float.{Float64}
use llmsentinel_router.Rate.{
  Event, Window, Limiter, Limits, minute, day, trim_events, cleanup, record_request, usage, check,
}
use llmsentinel_router.Rate.Events.{
  recent, Ascending, UpTo, trim-recent, recent-append, recent-recent, Ascending-recent, UpTo-recent,
  UpTo-later, UpTo-append, Ascending-append,
}

-- A call of the limiter.
pub data Call : Type 0 where
  recorded : String → ℤ → Call
  looked : String → Call
  asked : String → Limits → ℤ → Call

pub record Entry : Type 0 where
  pub time : ℕ
  pub call : Call

-- The request of one model that an entry records, if it does.
unfoldable pub event_of : String → Entry → List Event
event_of q x = elim x.call [
  | recorded m tokens ↦ if m == q then record { at = x.time; tokens = tokens } ∷ [] else []
  | looked m ↦ []
  | asked m limits estimated ↦ []
]

-- The requests of one model that a history records, in order.
unfoldable pub events_of : String → List Entry → List Event
events_of q [] = []
events_of q (x ∷ xs) = event_of q x ++ events_of q xs

-- The calls are made in the order of time, from `t` on.
abbrev pub InOrder : ℕ → List Entry → Type 0
InOrder t [] = Unit
InOrder t (x ∷ xs) = (t ≤ x.time) × InOrder x.time xs

-- The time of the last call, or `t`.
abbrev pub last_time : ℕ → List Entry → ℕ
last_time t [] = t
last_time t (x ∷ xs) = last_time x.time xs

module _ {F : Type 0} ⦃fl : Float64 F⦄ where
  unfoldable pub step : Entry → Limiter F → Limiter F
  step x l = elim x.call [
    | recorded m tokens ↦ record_request m tokens x.time l
    | looked m ↦ (usage m x.time l).0
    | asked m limits estimated ↦ (check m limits estimated x.time l).0
  ]

  unfoldable pub run : List Entry → Limiter F → Limiter F
  run [] l = l
  run (x ∷ xs) l = run xs (step x l)

-- A list of events stands for another from time `t` on, as far as a window of `span` sees it.
pub record Tracks (span t : ℕ) (kept all : List Event) : Type 0 where
  pub ordered : Ascending 0 kept
  pub past : UpTo t kept
  pub seen : (c : ℕ) → t - span ≤ c → recent c kept ≡ recent c all

pub Tracks-later :
    (span t t' : ℕ) (kept all : List Event)
    → t ≤ t'
    → Tracks span t kept all
    → Tracks span t' kept all
Tracks-later span t t' kept all h k = record {
  ordered = k.ordered;
  past = UpTo-later t t' kept h k.past;
  seen = λ c d. k.seen c (omega arith);
}

pub Tracks-trim :
    (span t : ℕ) (kept all : List Event)
    → Tracks span t kept all
    → Tracks span t (trim_events kept (t - span)) all
Tracks-trim span t kept all k = rw (trim-recent (t - span) 0 kept k.ordered) (record {
  ordered = Ascending-recent (t - span) 0 kept k.ordered;
  past = UpTo-recent (t - span) t kept k.past;
  seen = λ c d. recent-recent (t - span) c kept d ∙ k.seen c d;
})

pub Tracks-append :
    (span t : ℕ) (kept all : List Event) (e : Event)
    → e.at ≡ t
    → Tracks span t kept all
    → Tracks span t (kept ++ e ∷ []) (all ++ e ∷ [])
Tracks-append span t kept all e now k = record {
  ordered = Ascending-append 0 t kept e (omega arith) k.ordered k.past (omega arith);
  past = UpTo-append t kept e k.past (omega arith);
  seen = λ c d.
      recent-append c kept (e ∷ [])
      ∙ ap (λ xs. xs ++ recent c (e ∷ [])) (k.seen c d)
      ∙ sym (recent-append c all (e ∷ []));
}

-- Both windows of a model stand for its history.
pub record Faithful (t : ℕ) (w : Window) (all : List Event) : Type 0 where
  pub of_minute : Tracks minute t w.request_minute all
  pub of_day : Tracks day t w.request_day all

pub Faithful-cleanup :
    (t now : ℕ) (w : Window) (all : List Event)
    → t ≤ now
    → Faithful t w all
    → Faithful now (cleanup now w) all
unfolding cleanup
Faithful-cleanup t now w all h f = record {
  of_minute =
      Tracks-trim minute now w.request_minute all (Tracks-later minute t now _ all h f.of_minute);
  of_day = Tracks-trim day now w.request_day all (Tracks-later day t now _ all h f.of_day);
}

-- The window that a history gives a model at a time: its requests of the last minute and day.
abbrev pub window_at : ℕ → String → List Entry → Window
window_at now q xs = record {
  request_minute = recent (now - minute) (events_of q xs);
  request_day = recent (now - day) (events_of q xs);
}
