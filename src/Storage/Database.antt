-- ===== src/Storage/Database.antt =====
-- The sessions table of internal/storage/storage.go and the SQL statements on it. SQLite runs each
-- statement atomically; between two statements of one caller other callers' statements may run, and
-- a statement may fail. Both are the environment's choice: a list of turns, one for each statement.
use llmsentinel_router.Prelude.{
  ℕ, ◌+◌, String, Bool, true, false, not, ◌&&◌, Option, none, some, List, [], ◌∷◌, if◌then◌else◌,
}
use llmsentinel_router.Prelude.Float.{Float64}
use llmsentinel_router.Prelude.Map.{Map, lookup, insert}
use llmsentinel_router.Exec.{DriverError, constraint, database, Result, ok, err, Exec}

-- sql.NullString is an `Option`; a time is a count of nanoseconds.
pub record Session (F : Type 0) : Type 0 where
  pub session_id : String
  pub client_ip : Option String
  pub tier : String
  pub created_at : ℕ
  pub max_cost_per_session : F
  pub current_cost : F
  pub is_active : Bool
  pub version : ℕ

-- The statements that write the table, with their arguments.
pub data Statement (F : Type 0) : Type 0 where
  -- INSERT INTO sessions
  insert_session : Session F → Statement F
  -- current_cost + c WHERE is_active = 1 AND current_cost + c <= max_cost_per_session
  charge_within_limit : String → F → Statement F
  -- CASE WHEN current_cost + d < 0 THEN 0 ELSE current_cost + d END
  refund : String → F → Statement F
  -- current_cost + c
  charge : String → F → Statement F
  -- is_active = 0
  deactivate : String → Statement F
  -- current_cost = 0.0, max_cost_per_session = m, is_active = 1
  restart : String → F → Statement F

abbrev pub Table : Type 0 → Type 0
Table F = Map (Session F)

module _ {F : Type 0} where
  -- UPDATE sessions SET f WHERE session_id = id AND p, and the rows affected
  unfoldable pub update_where :
      String → (Session F → Bool) → (Session F → Session F) → Table F → Result ℕ × Table F
  update_where id p f t = elim (lookup id t) [
    | none ↦ (ok 0, t)
    | some r ↦ if p r then (ok 1, insert id (f r) t) else (ok 0, t)
  ]

module _ {F : Type 0} ⦃fl : Float64 F⦄ where
  -- A row with its cost raised, if it is active and stays within its limit.
  unfoldable pub fits : F → Session F → Bool
  fits c r = r.is_active && fl.le (fl.add r.current_cost c) r.max_cost_per_session

  unfoldable pub charged : F → Session F → Session F
  charged c r = record r { current_cost = fl.add r.current_cost c; version = r.version + 1 }

  unfoldable pub refunded : F → Session F → Session F
  refunded d r = record r {
    current_cost =
        if fl.lt (fl.add r.current_cost d) (fl.lit 0) then fl.lit 0 else fl.add r.current_cost d;
    version = r.version + 1;
  }

  unfoldable pub restarted : F → Session F → Session F
  restarted m r = record r {
    current_cost = fl.lit 0;
    max_cost_per_session = m;
    is_active = true;
    version = r.version + 1;
  }

  -- The driver binds NaN as NULL, and a sum that is not a number is NULL, which a column with NOT NULL
  -- does not take.
  abbrev pub is_null : F → Bool
  is_null x = not (fl.le x x)

  -- UPDATE sessions SET f WHERE session_id = id, where f writes the number x to such a column.
  unfoldable pub update_number :
      String → (Session F → F) → (Session F → Session F) → Table F → Result ℕ × Table F
  update_number id x f t = elim (lookup id t) [
    | none ↦ (ok 0, t)
    | some r ↦ if is_null (x r) then (err (database constraint), t) else (ok 1, insert id (f r) t)
  ]

  -- One statement on the table: the rows affected, or the error of the primary key or of NOT NULL.
  unfoldable pub apply : Statement F → Table F → Result ℕ × Table F
  unfolding update_where update_number
  apply (insert_session r) t =
      if is_null r.max_cost_per_session
      then (err (database constraint), t)
      else elim (lookup r.session_id t) [
        | none ↦ (ok 1, insert r.session_id r t)
        | some _ ↦ (err (database constraint), t)
      ]
  apply (charge_within_limit id c) t = update_where id (fits c) (charged c) t
  apply (refund id d) t = update_number id (λ r. fl.add r.current_cost d) (refunded d) t
  apply (charge id c) t = update_number id (λ r. fl.add r.current_cost c) (charged c) t
  apply (deactivate id) t = update_where id (λ r. true) (λ r. record r { is_active = false }) t
  apply (restart id m) t = update_number id (λ r. m) (restarted m) t

  unfoldable pub apply_all : List (Statement F) → Table F → Table F
  apply_all [] t = t
  apply_all (st ∷ sts) t = apply_all sts (apply st t).1

-- What becomes of the caller's statement: it runs, it is refused, or it runs and its result is lost.
pub data Outcome : Type 0 where
  done : Outcome
  refused lost : DriverError → Outcome

pub record Turn (F : Type 0) : Type 0 where
  pub others : List (Statement F)
  pub outcome : Outcome

-- The table, and the turns to come. With no turn left the caller is alone and nothing fails.
pub record Db (F : Type 0) : Type 0 where
  pub sessions : Table F
  pub turns : List (Turn F)

module _ {F : Type 0} ⦃fl : Float64 F⦄ where
  abbrev pub next_turn : List (Turn F) → Db F → Outcome × Db F
  next_turn [] db = (done, db)
  next_turn (t ∷ ts) db =
      (t.outcome, record db { sessions = apply_all t.others db.sessions; turns = ts })

  abbrev pub finish_exec : Statement F → Outcome → Exec (Db F) ℕ
  finish_exec st done d = let (r, t) = apply st d.sessions in (r, record d { sessions = t })
  finish_exec st (refused e) d = (err (database e), d)
  finish_exec st (lost e) d = (err (database e), record d { sessions = (apply st d.sessions).1 })

  abbrev pub finish_select : String → Outcome → Exec (Db F) (Option (Session F))
  finish_select id done d = (ok (lookup id d.sessions), d)
  finish_select id (refused e) d = (err (database e), d)
  finish_select id (lost e) d = (err (database e), d)

  -- db.ExecContext and result.RowsAffected
  unfoldable pub exec : Statement F → Exec (Db F) ℕ
  exec st db = let (outcome, db') = next_turn db.turns db in finish_exec st outcome db'

  -- db.QueryRowContext(...).Scan; `none` is sql.ErrNoRows
  unfoldable pub select_session : String → Exec (Db F) (Option (Session F))
  select_session id db = let (outcome, db') = next_turn db.turns db in finish_select id outcome db'
