-- ===== src/Storage/Creation.antt =====
-- When GetOrCreateSession of internal/storage/storage.go returns, and what it returns.
use llmsentinel_router.Prelude.{
  ℕ, zero, suc, ◌<◌, String, ◌≡◌, ◌≢◌, refl, false, not, ap, Option, none, some, List, [], ◌∷◌,
  arith, length, eq_refl,
}
use llmsentinel_router.Prelude.Float.{Float64, IsOrdered, IsFinite, ◌≼◌, zero_num}
use llmsentinel_router.Prelude.Map.{lookup, insert, lookup-insert}
use llmsentinel_router.Exec.{constraint, other, database, out_of_fuel, Result, ok, err, Exec, ◌>>=◌}
use llmsentinel_router.Storage.Database.{
  Session, Table, insert_session, apply, apply_all, Outcome, done, refused, lost, Turn, Db, exec,
  select_session, finish_exec, is_null,
}
use llmsentinel_router.Storage.Sessions.{
  get_session, get_session_required, after_insert, after_get, new_session, create_on,
  get_or_create_session,
}
use llmsentinel_router.Storage.Bounds.{WithinLimit}
use llmsentinel_router.Storage.Keeps.{
  IsSafe, Keeps, exec-Keeps, get_session-Keeps, get_session_required-Keeps,
}

module _ {F : Type 0} ⦃fl : Float64 F⦄ where
  abbrev pub mk : Table F → List (Turn F) → Db F
  mk s ts = record { sessions = s; turns = ts }

  get_session_required-total :
      (id : String) (s : Table F) (ts : List (Turn F))
      → (get_session_required id (mk s ts)).0 ≢ err out_of_fuel
  unfolding get_session_required ◌>>=◌ select_session
  get_session_required-total id s [] h = ground arith
  get_session_required-total id s (t ∷ ts) h = ground arith

  retry-total :
      (row : Session F) (again : Exec (Db F) (Session F)) (ts : List (Turn F)) (x : Outcome)
      (s : Table F)
      → is_null row.max_cost_per_session ≡ false
      → ((s' : Table F) → (again (mk s' ts)).0 ≢ err out_of_fuel)
      → let (r, db) = finish_exec (insert_session row) x (mk s ts) in
        (after_insert row.session_id again r db).0 ≢ err out_of_fuel
  unfolding apply
  retry-total row again ts done s num ih h =
      ground
        (arith, ih s, get_session_required-total row.session_id (insert row.session_id row s) ts)
  retry-total row again ts (refused constraint) s num ih h = ih s h
  retry-total row again ts (refused other) s num ih h = cc
  retry-total row again ts (lost constraint) s num ih h = ih _ h
  retry-total row again ts (lost other) s num ih h = cc

  create_on-total :
      (fuel : ℕ) (row : Session F) (s : Table F) (ts : List (Turn F))
      → is_null row.max_cost_per_session ≡ false
      → length ts < fuel
      → (create_on fuel row (mk s ts)).0 ≢ err out_of_fuel
  unfolding create_on get_session select_session exec apply
  create_on-total zero row s ts num h = elim h [ ]
  create_on-total (suc fuel) row s [] num h =
      ground (arith, get_session_required-total row.session_id (insert row.session_id row s) [])
  create_on-total (suc fuel) row s (t ∷ []) num h = ground (
    arith,
    get_session_required-total row.session_id (insert row.session_id row (apply_all t.others s)) [],
  )
  create_on-total (suc fuel) row s (t ∷ u ∷ ts) num h = ground (
    arith,
    retry-total row (create_on fuel row) ts u.outcome (apply_all u.others (apply_all t.others s))
        num (λ s'. create_on-total fuel row s' ts num (omega arith)),
  )

  -- GetOrCreateSession returns, if the limit of the session is a number: its recursion ends, whatever an
  -- environment does that has finitely many turns, with its own statements and failures in each.
  pub get_or_create_session-total :
      (id client_ip tier : String) (max_cost : F) (now : ℕ) (db : Db F)
      → max_cost ≼ max_cost
      → (get_or_create_session id client_ip tier max_cost now db).0 ≢ err out_of_fuel
  unfolding get_or_create_session new_session
  get_or_create_session-total id client_ip tier max_cost now db num =
      create_on-total (suc (length db.turns)) (new_session id client_ip tier max_cost now)
        db.sessions db.turns (ap not num) (omega arith)

  -- With NaN for the limit of a session that is not there, GetOrCreateSession does not return, even with
  -- no other caller: the database binds the limit as NULL, which the table does not take, and the
  -- recursion on its error uses up any fuel.
  pub create_on-endless :
      (fuel : ℕ) (id client_ip tier : String) (max_cost : F) (now : ℕ) (s : Table F)
      → lookup id s ≡ none
      → fl.le max_cost max_cost ≡ false
      → create_on fuel (new_session id client_ip tier max_cost now) (mk s [])
        ≡ (err out_of_fuel, mk s [])
  unfolding create_on get_session select_session exec apply new_session
  create_on-endless zero id client_ip tier max_cost now s gone null = refl
  create_on-endless (suc fuel) id client_ip tier max_cost now s gone null =
      ground (arith, create_on-endless fuel id client_ip tier max_cost now s gone null)

  -- With no other caller, GetOrCreateSession returns the row of a session that is there, and changes
  -- nothing.
  pub get_or_create_session_there :
      (id client_ip tier : String) (max_cost : F) (now : ℕ) (s : Table F) (r : Session F)
      → lookup id s ≡ some r
      → get_or_create_session id client_ip tier max_cost now (mk s []) ≡ (ok r, mk s [])
  unfolding get_or_create_session get_session select_session new_session create_on
  get_or_create_session_there id client_ip tier max_cost now s r here = ground (arith, here)

  -- With no other caller, for a session that is not there and a limit that is a number, it inserts a
  -- fresh row and returns it.
  get_or_create_session_fresh :
      (id client_ip tier : String) (max_cost : F) (now : ℕ) (s : Table F)
      → lookup id s ≡ none
      → max_cost ≼ max_cost
      → let fresh = new_session id client_ip tier max_cost now in
        get_or_create_session id client_ip tier max_cost now (mk s [])
        ≡ (ok fresh, mk (insert id fresh s) [])
  unfolding get_or_create_session get_session select_session exec apply get_session_required ◌>>=◌
      new_session create_on
  get_or_create_session_fresh id client_ip tier max_cost now s gone num =
      let fresh = new_session id client_ip tier max_cost now in
      ground (arith, gone, num, lookup-insert id id fresh s, eq_refl id)

module _ {F : Type 0} ⦃fl : Float64 F⦄ (o : IsOrdered F) where
  new_session-WithinLimit :
      (id client_ip tier : String) (max_cost : F) (now : ℕ)
      → fl.lit 0 ≼ max_cost
      → IsFinite max_cost
      → WithinLimit (new_session id client_ip tier max_cost now)
  unfolding new_session
  new_session-WithinLimit id client_ip tier max_cost now low fin = record {
    not_negative = zero_num o;
    within = low;
    finite = fin;
  }

  after_insert-IsSafe :
      (id : String) (again : Exec (Db F) (Session F)) (r : Result ℕ) (db : Db F)
      → Keeps again
      → IsSafe db
      → IsSafe (after_insert id again r db).1
  after_insert-IsSafe id again (ok n) db k h = (get_session_required-Keeps o id).at db h
  after_insert-IsSafe id again (err (database constraint)) db k h = k.at db h
  after_insert-IsSafe id again (err _) db k h = h

  after_get-IsSafe :
      (row : Session F) (again : Exec (Db F) (Session F)) (r : Result (Option (Session F)))
      (db : Db F)
      → WithinLimit row
      → Keeps again
      → IsSafe db
      → IsSafe (after_get row again r db).1
  after_get-IsSafe row again (err e) db w k h = h
  after_get-IsSafe row again (ok (some s)) db w k h = h
  after_get-IsSafe row again (ok none) db w k h =
      after_insert-IsSafe row.session_id again (exec (insert_session row) db).0
        (exec (insert_session row) db).1 k ((exec-Keeps o (insert_session row) w).at db h)

  create_on-Keeps : (fuel : ℕ) (row : Session F) → WithinLimit row → Keeps (create_on fuel row)
  unfolding create_on
  create_on-Keeps zero row w = record { at = λ db h. h }
  create_on-Keeps (suc fuel) row w = record {
    at = λ db h.
        after_get-IsSafe row (create_on fuel row) (get_session row.session_id db).0
          (get_session row.session_id db).1 w (create_on-Keeps fuel row w)
          ((get_session-Keeps o row.session_id).at db h);
  }

  -- GetOrCreateSession keeps the database safe, if the limit is finite and not negative.
  pub get_or_create_session-Keeps :
      (id client_ip tier : String) (max_cost : F) (now : ℕ)
      → fl.lit 0 ≼ max_cost
      → IsFinite max_cost
      → Keeps (get_or_create_session id client_ip tier max_cost now)
  unfolding get_or_create_session
  get_or_create_session-Keeps id client_ip tier max_cost now low fin = record {
    at = λ db.
        (create_on-Keeps (suc (length db.turns)) (new_session id client_ip tier max_cost now)
            (new_session-WithinLimit id client_ip tier max_cost now low fin)).at
          db;
  }
