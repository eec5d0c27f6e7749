-- ===== src/Semantic/Persistent.antt =====
-- internal/semantic/persistent_cache.go and internal/storage/semantic_cache.go: the cache and its two
-- tables. Each SQL statement may fail, which the environment decides: `faults` has a Boolean for each
-- statement to come, and with none left every statement succeeds. HashPayload and truncate(prompt,
-- 500) come as arguments.
use llmsentinel_router.Prelude.{
  ℕ, String, Bool, true, false, Option, none, some, List, [], ◌∷◌, if◌then◌else◌,
}
use llmsentinel_router.Prelude.Int.{ℤ}
use llmsentinel_router.Prelude.Float.{Float64}
use llmsentinel_router.Prelude.Map.{Map, lookup, insert}
use llmsentinel_router.Storage.Sessions.{nullable_string}
use llmsentinel_router.Semantic.Cache.{
  Stats, Cache, new_cache, lookup_stats, confident_route, record_call, load_from_stats,
}
use llmsentinel_router.Semantic.Cache

-- A row of semantic_cache_stats; sql.NullString is an `Option`.
pub record Row (F : Type 0) : Type 0 where
  pub semantic_hash : String
  pub total_calls : ℕ
  pub weak_calls : ℕ
  pub strong_calls : ℕ
  pub judge_invocations : ℕ
  pub total_latency_ms : F
  pub total_cost : F
  pub total_tokens : ℤ
  pub last_model : Option String
  pub last_called_at : ℕ
  pub first_seen_at : ℕ

-- A row of semantic_cache_entries, in the columns that the cache sets.
pub record Entry (F : Type 0) : Type 0 where
  pub semantic_hash : String
  pub context_hash : String
  pub prompt_preview : String
  pub latency_ms : F
  pub judge_invoked : Bool
  pub model_used : String
  pub cost : F
  pub total_tokens : ℤ

pub record Store (F : Type 0) : Type 0 where
  pub rows : Map (Row F)
  pub entries : List (Entry F)
  pub faults : List Bool

pub record PersistentCache (F : Type 0) : Type 0 where
  pub inner : Cache F
  pub loaded : Bool

abbrev pub null_string_value : Option String → String
null_string_value none = ""
null_string_value (some s) = s

-- Whether the next statement fails.
abbrev pub next_fault : List Bool → Bool × List Bool
next_fault [] = (false, [])
next_fault (b ∷ bs) = (b, bs)

module _ {F : Type 0} where
  abbrev pub of_row : Row F → Stats F
  of_row r = record {
    semantic_hash = r.semantic_hash;
    total_calls = r.total_calls;
    weak_calls = r.weak_calls;
    strong_calls = r.strong_calls;
    judge_invocations = r.judge_invocations;
    total_latency_ms = r.total_latency_ms;
    total_cost = r.total_cost;
    total_tokens = r.total_tokens;
    last_model = null_string_value r.last_model;
    last_called_at = r.last_called_at;
    first_seen_at = r.first_seen_at;
  }

  unfoldable pub to_row : Stats F → Row F
  unfolding nullable_string
  to_row s = record {
    semantic_hash = s.semantic_hash;
    total_calls = s.total_calls;
    weak_calls = s.weak_calls;
    strong_calls = s.strong_calls;
    judge_invocations = s.judge_invocations;
    total_latency_ms = s.total_latency_ms;
    total_cost = s.total_cost;
    total_tokens = s.total_tokens;
    last_model = nullable_string s.last_model;
    last_called_at = s.last_called_at;
    first_seen_at = s.first_seen_at;
  }

  unfoldable pub of_rows : Map (Row F) → Map (Stats F)
  of_rows [] = []
  of_rows ((hash, r) ∷ rest) = (hash, of_row r) ∷ of_rows rest

  unfoldable pub ensure_loaded : PersistentCache F × Store F → PersistentCache F × Store F
  unfolding of_rows load_from_stats
  ensure_loaded (c, s) =
      let (failed, rest) = next_fault s.faults in
      let s' : Store F = record s { faults = rest } in
      if c.loaded
      then (c, s)
      else if failed
      then (c, s')
      else (record c { inner = load_from_stats (of_rows s.rows) c.inner; loaded = true }, s')

  unfoldable pub persistent_lookup :
      String → ℕ → PersistentCache F × Store F → (PersistentCache F × Store F) × Option (Stats F)
  unfolding ensure_loaded lookup_stats
  persistent_lookup hash now cs =
      let (c, s) = ensure_loaded cs in
      let (inner, found) = lookup_stats hash now c.inner in ((record c { inner = inner }, s), found)

  -- INSERT ... ON CONFLICT(semantic_hash) DO UPDATE, which keeps first_seen_at.
  abbrev pub upserted : Row F → Option (Row F) → Row F
  upserted r none = r
  upserted r (some old) = record r { first_seen_at = old.first_seen_at }

  unfoldable pub upsert : Row F → Store F → Store F
  upsert r s =
      let (failed, rest) = next_fault s.faults in
      record s {
        rows =
            if failed
            then s.rows
            else insert r.semantic_hash (upserted r (lookup r.semantic_hash s.rows)) s.rows;
        faults = rest;
      }

  unfoldable pub insert_entry : Entry F → Store F → Store F
  insert_entry e s =
      let (failed, rest) = next_fault s.faults in
      record s { entries = if failed then s.entries else e ∷ s.entries; faults = rest }

  -- The second statement is not reached where the first one fails.
  unfoldable pub clear : Store F → Store F
  clear s =
      let (failed, rest) = next_fault s.faults in
      let (failed', rest') = next_fault rest in
      if failed
      then record s { faults = rest }
      else record s { rows = []; entries = if failed' then s.entries else []; faults = rest' }

  unfoldable pub persistent_reset : PersistentCache F × Store F → PersistentCache F × Store F
  unfolding Cache.reset clear
  persistent_reset (c, s) = (record c { inner = Cache.reset c.inner; loaded = true }, clear s)

  -- The two writes of Record, where its lookup finds the statistics.
  unfoldable pub written : Option (Stats F) → (Stats F → Entry F) → Store F → Store F
  unfolding upsert insert_entry to_row
  written none entry s = s
  written (some st) entry s = insert_entry (entry st) (upsert (to_row st) s)

module _ {F : Type 0} ⦃fl : Float64 F⦄ where
  unfoldable pub new_persistent : ℤ → F → ℤ → PersistentCache F
  unfolding new_cache
  new_persistent min_samples threshold ttl = record {
    inner = new_cache min_samples threshold ttl;
    loaded = false;
  }

  unfoldable pub persistent_route :
      String → ℕ → PersistentCache F × Store F → (PersistentCache F × Store F) × String × F × Bool
  unfolding ensure_loaded confident_route
  persistent_route hash now cs =
      let (c, s) = ensure_loaded cs in
      let (inner, route, conf, sure) = confident_route hash now c.inner in
      ((record c { inner = inner }, s), route, conf, sure)

  -- Record from its lookup on, with the clock at that lookup.
  unfoldable pub write_through :
      (Stats F → Entry F)
      → String
      → ℕ
      → Cache F
      → PersistentCache F × Store F
      → PersistentCache F × Store F
  unfolding lookup_stats written
  write_through entry hash now recorded (c, s) =
      let (inner, found) = lookup_stats hash now recorded in
      (record c { inner = inner }, written found entry s)

  -- Record, with the clock at its first and at its second reading.
  unfoldable pub persistent_record :
      String
      → String
      → String
      → String
      → String
      → F
      → Bool
      → F
      → ℤ
      → ℕ
      → ℕ
      → PersistentCache F × Store F
      → PersistentCache F × Store F
  unfolding ensure_loaded record_call write_through
  persistent_record hash context_hash preview model route latency judged cost tokens at now cs =
      let entry : Stats F → Entry F = λ st. record {
        semantic_hash = st.semantic_hash;
        context_hash = context_hash;
        prompt_preview = preview;
        latency_ms = latency;
        judge_invoked = judged;
        model_used = model;
        cost = cost;
        total_tokens = tokens;
      } in
      let ready = ensure_loaded cs in
      write_through entry hash now
        (record_call hash model route latency judged cost tokens at ready.0.inner) ready
