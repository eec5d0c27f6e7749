-- ===== src/Rate.antt =====
-- internal/rate/limiter.go: sliding windows of requests and tokens for each model. `now` is what
-- time.Now() returns, in nanoseconds; the mutexes make each method atomic.
pub mod Events
pub mod History
pub mod Report
use llmsentinel_router.Prelude.{
  ℕ, zero, suc, ◌+◌, ◌-◌, ◌*◌, String, ◌==◌, Bool, true, false, not, ◌&&◌, Option, none, some, List,
  [], ◌∷◌, ◌++◌, if◌then◌else◌, ltb, length,
}
use llmsentinel_router.Prelude.Int.{ℤ, pos, ltb_ℤ, leb_ℤ, add64}
use llmsentinel_router.Prelude.Float.{Float64}
pub use llmsentinel_router.Config.{Limits}
use llmsentinel_router.Prelude.Map.{Map, lookup, insert}

-- An `event`: its time and its tokens.
pub record Event : Type 0 where
  pub at : ℕ
  pub tokens : ℤ

pub record Window : Type 0 where
  pub request_minute : List Event
  pub request_day : List Event

pub record Usage : Type 0 where
  pub requests_last_minute : ℕ
  pub tokens_last_minute : ℤ
  pub requests_last_day : ℕ
  pub tokens_last_day : ℤ

pub record Limiter (F : Type 0) : Type 0 where
  pub safety_margin : F
  pub windows : Map Window

abbrev pub minute : ℕ
minute = 60_000_000_000

abbrev pub day : ℕ
day = 86_400_000_000_000

-- The loop drops the events before the cutoff at the front, and `append` moves the rest down.
unfoldable pub trim_events : List Event → ℕ → List Event
trim_events [] cutoff = []
trim_events (e ∷ es) cutoff =
    let rest = trim_events es cutoff in if ltb e.at cutoff then rest else e ∷ es

-- A cutoff before the epoch is 0: no event is before either.
unfoldable pub cleanup : ℕ → Window → Window
unfolding trim_events
cleanup now w = record {
  request_minute = trim_events w.request_minute (now - minute);
  request_day = trim_events w.request_day (now - day);
}

-- The sum of the tokens, in the order of the loop.
unfoldable pub sum_tokens : ℤ → List Event → ℤ
sum_tokens acc [] = acc
sum_tokens acc (e ∷ es) = sum_tokens (add64 acc e.tokens) es

unfoldable pub window_usage : Window → Usage
window_usage w = record {
  requests_last_minute = length w.request_minute;
  tokens_last_minute = sum_tokens (pos 0) w.request_minute;
  requests_last_day = length w.request_day;
  tokens_last_day = sum_tokens (pos 0) w.request_day;
}

-- The reason of a refusal, with the numbers that it prints.
pub data Reason : Type 0 where
  rpm_limit tpm_limit rpd_limit tpd_limit projected_tpm : ℤ → ℤ → Reason

abbrev no_events : Window
no_events = record { request_minute = []; request_day = [] }

module _ {F : Type 0} where
  -- A window that is not there is made; the map then holds it.
  unfoldable pub window_of : Limiter F → String → Window
  window_of l model = elim (lookup model l.windows) [ none ↦ no_events | some w ↦ w ]

  unfoldable pub put_window : Limiter F → String → Window → Limiter F
  put_window l model w = record l { windows = insert model w l.windows }

  unfoldable pub record_request : String → ℤ → ℕ → Limiter F → Limiter F
  unfolding window_of put_window cleanup
  record_request model tokens now l =
      let w = window_of l model in
      let e : Event = record { at = now; tokens = tokens } in
      put_window l model (
        cleanup now (record {
          request_minute = w.request_minute ++ e ∷ [];
          request_day = w.request_day ++ e ∷ [];
        }))

  unfoldable pub usage : String → ℕ → Limiter F → Limiter F × Usage
  unfolding window_of put_window cleanup window_usage
  usage model now l =
      let w = cleanup now (window_of l model) in (put_window l model w, window_usage w)

module _ {F : Type 0} ⦃fl : Float64 F⦄ where
  unfoldable pub new : F → Limiter F
  new margin = record {
    safety_margin = if fl.le margin (fl.lit 0) then fl.lit 9_500 else margin;
    windows = [];
  }

  -- limit > 0 && used >= int(float64(limit) * safetyMargin)
  unfoldable pub reached : F → ℤ → ℤ → Bool
  reached margin limit used =
      ltb_ℤ (pos 0) limit && leb_ℤ (fl.trunc (fl.mul (fl.of_int limit) margin)) used

  -- The tests of Check on the usage; `none` lets the request pass.
  unfoldable pub refusal : F → Limits → ℤ → Usage → Option Reason
  unfolding reached
  refusal margin limits estimated u =
      let minute_requests = pos u.requests_last_minute in
      let day_requests = pos u.requests_last_day in
      let projected = add64 u.tokens_last_minute estimated in
      if reached margin limits.requests_per_minute minute_requests
      then some (rpm_limit minute_requests limits.requests_per_minute)
      else if reached margin limits.tokens_per_minute u.tokens_last_minute
      then some (tpm_limit u.tokens_last_minute limits.tokens_per_minute)
      else if reached margin limits.requests_per_day day_requests
      then some (rpd_limit day_requests limits.requests_per_day)
      else if reached margin limits.tokens_per_day u.tokens_last_day
      then some (tpd_limit u.tokens_last_day limits.tokens_per_day)
      else if ltb_ℤ (pos 0) estimated && reached margin limits.tokens_per_minute projected
      then some (projected_tpm projected limits.tokens_per_minute)
      else none

  unfoldable pub check : String → Limits → ℤ → ℕ → Limiter F → Limiter F × Option Reason × Usage
  unfolding usage refusal
  check model limits estimated now l =
      let (l', u) = usage model now l in (l', refusal l.safety_margin limits estimated u, u)
