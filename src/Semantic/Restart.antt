-- ===== src/Semantic/Restart.antt =====
-- The cache and its table agree, so that a new process is as sure of each route as the old one.
use llmsentinel_router.Prelude.{
  ℕ, String, ◌==◌, eq_iff, eq_refl, ◌≡◌, refl, sym, ap, ◌∙◌, subst, Bool, true, false, Option, none,
  some, [], ◌∷◌, arith, Option-cases, Bool-cases, inl, inr, some_injective,
}
use llmsentinel_router.Prelude.Int.{ℤ, pos, ◌+ℤ◌, ◌≤ℤ◌}
use llmsentinel_router.Prelude.Float.{Float64}
use llmsentinel_router.Prelude.Map.{Map, lookup, insert, lookup-insert}
use llmsentinel_router.Storage.Sessions.{nullable_string}
use llmsentinel_router.Semantic.Cache.{
  Stats, Cache, lookup_stats, confident_route, record_call, load_from_stats, counted, unseen,
}
use llmsentinel_router.Semantic.Persistent.{
  Row, Entry, Store, PersistentCache, of_row, to_row, of_rows, ensure_loaded, upserted, upsert,
  insert_entry, written, persistent_route, write_through, persistent_record,
}

-- The primary key of the table.
abbrev pub IsUnique : {F : Type 0} → Map (Row F) → Type 0
IsUnique [] = Unit
IsUnique ((k, r) ∷ rest) = (lookup k rest ≡ none) × IsUnique rest

module _ {F : Type 0} where
  abbrev pub row_of : Option (Stats F) → Option (Row F)
  row_of none = none
  row_of (some s) = some (to_row s)

  abbrev pub stats_or : Option (Stats F) → Option (Row F) → Option (Stats F)
  stats_or d none = d
  stats_or d (some r) = some (of_row r)

  of_row-to_row : (s : Stats F) → of_row (to_row s) ≡ s
  unfolding to_row nullable_string
  of_row-to_row s = ground (arith, eq_iff s.last_model "")

  stats_or-row_of : (o : Option (Stats F)) → stats_or none (row_of o) ≡ o
  stats_or-row_of none = refl
  stats_or-row_of (some s) = ap some (of_row-to_row s)

  IsUnique-insert :
      (k : String) (r : Row F) (m : Map (Row F)) → IsUnique m → IsUnique (insert k r m)
  unfolding insert lookup
  IsUnique-insert k r [] u = (refl, tt)
  IsUnique-insert k r ((j, w) ∷ rest) (alone, u) = elim (Bool-cases (j == k)) [
    | inl same ↦ let e : j ≡ k = (eq_iff j k).0 same in rw same (ground (arith, alone, e), u)
    | inr other ↦ rw other (
      ground (arith, alone, lookup-insert k j r rest, eq_iff j k, eq_iff k j),
      IsUnique-insert k r rest u,
    )
  ]

  lookup-load_from_stats :
      (h : String) (rows : Map (Row F)) (c : Cache F)
      → IsUnique rows
      → lookup h (load_from_stats (of_rows rows) c).stats
        ≡ stats_or (lookup h c.stats) (lookup h rows)
  unfolding load_from_stats of_rows lookup
  lookup-load_from_stats h [] c u = refl
  lookup-load_from_stats h ((k, r) ∷ rest) c (alone, u) =
      let c' : Cache F = record c { stats = insert k (of_row r) c.stats } in
      ground (
        arith,
        lookup-load_from_stats h rest c' u,
        lookup-insert k h (of_row r) c.stats,
        eq_iff k h,
        alone,
      )

  same_settings :
      (es : Map (Stats F)) (c : Cache F)
      → ((load_from_stats es c).min_samples ≡ c.min_samples)
        × ((load_from_stats es c).confidence_threshold ≡ c.confidence_threshold)
        × ((load_from_stats es c).ttl ≡ c.ttl)
  unfolding load_from_stats
  same_settings [] c = (refl, refl, refl)
  same_settings ((h, e) ∷ es) c = same_settings es (record c { stats = insert h e c.stats })

  -- The cache is loaded and every statement succeeds; the table has the statistics of the cache, each
  -- under its own hash.
  pub record InStep (c : PersistentCache F) (s : Store F) : Type 0 where
    pub is_loaded : c.loaded ≡ true
    pub no_faults : s.faults ≡ []
    pub unique : IsUnique s.rows
    pub same : (h : String) → lookup h s.rows ≡ row_of (lookup h c.inner.stats)
    pub keyed :
        (h : String) (st : Stats F) → lookup h c.inner.stats ≡ some st → st.semantic_hash ≡ h

  -- A new process on the table that an old one has left.
  abbrev pub restarted : PersistentCache F → PersistentCache F
  restarted c = record { inner = record (c.inner) { stats = [] }; loaded = false }

  upserted-row_of :
      (st : Stats F) (o : Option (Stats F))
      → ((old : Stats F) → o ≡ some old → st.first_seen_at ≡ old.first_seen_at)
      → upserted (to_row st) (row_of o) ≡ to_row st
  unfolding to_row
  upserted-row_of st none h = refl
  upserted-row_of st (some old) h =
      ap (λ t. record (to_row st) { first_seen_at = t }) (sym (h old refl))

  InStep-written :
      (c : PersistentCache F) (s : Store F) (st : Stats F) (entry : Stats F → Entry F)
      → InStep c s
      → ((old : Stats F)
          → lookup st.semantic_hash c.inner.stats ≡ some old
          → st.first_seen_at ≡ old.first_seen_at)
      → InStep
          (record c {
            inner = record (c.inner) { stats = insert st.semantic_hash st c.inner.stats };
          })
          (written (some st) entry s)
  unfolding written upsert insert_entry
  InStep-written c s st entry a first =
      let h = st.semantic_hash in
      let up : upserted (to_row st) (lookup h s.rows) ≡ to_row st =
        ap (upserted (to_row st)) (a.same h) ∙ upserted-row_of st (lookup h c.inner.stats) first in
      record {
        is_loaded = a.is_loaded;
        no_faults = ground (arith, a.no_faults);
        unique = rw (a.no_faults, up) (IsUnique-insert h (to_row st) s.rows a.unique);
        same = λ k. ground (
          arith,
          a.no_faults,
          up,
          a.same k,
          lookup-insert h k (to_row st) s.rows,
          lookup-insert h k st c.inner.stats,
        );
        keyed =
            λ k x e. ground (arith, lookup-insert h k st c.inner.stats, eq_iff h k, a.keyed k x, e);
      }

module _ {F : Type 0} ⦃fl : Float64 F⦄ where
  -- The statistics that Record makes of those that it finds.
  recorded_stats :
      (hash model route : String) (latency : F) (judged : Bool) (cost : F) (tokens : ℤ) (at : ℕ)
      → (c : Cache F)
      → ((h : String) (st : Stats F) → lookup h c.stats ≡ some st → st.semantic_hash ≡ h)
      → (st : Stats F) × (st.semantic_hash ≡ hash)
        × (st.last_called_at ≡ at)
        × ((old : Stats F) → lookup hash c.stats ≡ some old → st.first_seen_at ≡ old.first_seen_at)
        × (record_call hash model route latency judged cost tokens at c
            ≡ record c { stats = insert hash st c.stats })
  unfolding record_call counted
  recorded_stats hash model route latency judged cost tokens at c keyed =
      elim (Option-cases (lookup hash c.stats)) [
        | inl absent ↦ (
          counted model route latency judged cost tokens at (unseen hash at),
          refl,
          refl,
          λ old e. absurd (ground (arith, absent, e)),
          ground (arith, absent),
        )
        | inr (old, here) ↦ (
          counted model route latency judged cost tokens at old,
          keyed hash old here,
          refl,
          λ x e. ap (λ st. st.first_seen_at) (some_injective (sym here ∙ e)),
          ground (arith, here),
        )
      ]

  loaded_already :
      (c : PersistentCache F) (s : Store F) → c.loaded ≡ true → ensure_loaded (c, s) ≡ (c, s)
  unfolding ensure_loaded
  loaded_already c s h = rw h refl

  found_again :
      (hash : String) (now : ℕ) (st : Stats F) (c : Cache F)
      → pos now ≤ℤ pos st.last_called_at +ℤ c.ttl
      → lookup_stats hash now (record c { stats = insert hash st c.stats })
        ≡ (record c { stats = insert hash st c.stats }, some st)
  unfolding lookup_stats
  found_again hash now st c h = ground (arith, lookup-insert hash hash st c.stats, eq_refl hash)

  write_through-InStep :
      (entry : Stats F → Entry F) (hash : String) (now at : ℕ) (c : PersistentCache F) (s : Store F)
      → (recorded : Cache F) (st : Stats F) → InStep c s
      → pos now ≤ℤ pos at +ℤ c.inner.ttl
      → st.semantic_hash ≡ hash
      → st.last_called_at ≡ at
      → ((old : Stats F)
          → lookup hash c.inner.stats ≡ some old
          → st.first_seen_at ≡ old.first_seen_at)
      → recorded ≡ record (c.inner) { stats = insert hash st c.inner.stats }
      → let (c', s') = write_through entry hash now recorded (c, s) in InStep c' s'
  unfolding write_through
  write_through-InStep entry hash now at c s recorded st a timely own_hash own_time first e =
      let again : lookup_stats hash now recorded
          ≡ (record (c.inner) { stats = insert hash st c.inner.stats }, some st) =
        ap (lookup_stats hash now) e ∙ found_again hash now st c.inner (ground (arith, own_time)) in
      let written_back = InStep-written c s st entry a (
        subst
          (λ h.
            (old : Stats F)
            → lookup h c.inner.stats ≡ some old
            → st.first_seen_at ≡ old.first_seen_at)
          (sym own_hash) first) in
      subst (λ r. InStep (record c { inner = r.0 }) (written r.1 entry s)) (sym again)
        (subst
          (λ h.
            InStep (record c { inner = record (c.inner) { stats = insert h st c.inner.stats } })
              (written (some st) entry s))
          own_hash written_back)

  -- Record keeps cache and table in step, where its own lookup comes within the time to live.
  pub persistent_record-InStep :
      (hash context_hash preview model route : String) (latency : F) (judged : Bool) (cost : F)
      → (tokens : ℤ) (at now : ℕ) (c : PersistentCache F) (s : Store F)
      → pos now ≤ℤ pos at +ℤ c.inner.ttl
      → InStep c s
      → let (c', s') =
          persistent_record hash context_hash preview model route latency judged cost tokens at now
            (c, s) in
        InStep c' s'
  unfolding persistent_record
  persistent_record-InStep hash context_hash preview model route latency judged cost tokens at now c
        s timely a =
      let r = recorded_stats hash model route latency judged cost tokens at c.inner a.keyed in
      let recorded = record_call hash model route latency judged cost tokens at c.inner in
      rw (loaded_already c s a.is_loaded)
        (write_through-InStep _ hash now at c s recorded r.0 a timely r.1 r.2 r.3 r.4)

  route_of_inner :
      (hash : String) (now : ℕ) (c d : Cache F)
      → c.min_samples ≡ d.min_samples
      → c.confidence_threshold ≡ d.confidence_threshold
      → c.ttl ≡ d.ttl
      → lookup hash c.stats ≡ lookup hash d.stats
      → let r = confident_route hash now c in
        let q = confident_route hash now d in
        ◌≡◌ {A = String × F × Bool} (r.1, r.2, r.3) (q.1, q.2, q.3)
  unfolding confident_route lookup_stats
  route_of_inner hash now c d a b e f = elim (Option-cases (lookup hash d.stats)) [
    | inl absent ↦ ground (arith, absent, f)
    | inr (st, here) ↦ ground (arith, here, f)
  ]

  -- A new process with the same settings, on the table of a cache that is in step with it, gets the
  -- route, the confidence and the certainty that the old one gets.
  pub restarted_route :
      (hash : String) (now : ℕ) (c : PersistentCache F) (s : Store F)
      → InStep c s
      → let r = persistent_route hash now (restarted c, s) in
        let q = persistent_route hash now (c, s) in
        ◌≡◌ {A = String × F × Bool} (r.1, r.2, r.3) (q.1, q.2, q.3)
  unfolding persistent_route ensure_loaded lookup
  restarted_route hash now c s a =
      let d : Cache F = load_from_stats (of_rows s.rows) (restarted c).inner in
      let settings = same_settings (of_rows s.rows) (restarted c).inner in
      let found : lookup hash d.stats ≡ lookup hash c.inner.stats =
        lookup-load_from_stats hash s.rows (restarted c).inner a.unique
        ∙ ap (stats_or none) (a.same hash)
        ∙ stats_or-row_of (lookup hash c.inner.stats) in
      rw (a.no_faults, a.is_loaded)
        (route_of_inner hash now d c.inner settings.0 settings.1 settings.2 found)
