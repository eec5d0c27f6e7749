-- ===== src/Storage/Keeps.antt =====
-- Every method on sessions keeps every session within its limit, whatever the environment does by
-- guarded statements, failures included.
use llmsentinel_router.Prelude.{
  ℕ, zero, suc, String, ◌≡◌, refl, Bool, true, false, not, Option, none, some, List, [], ◌∷◌,
  if◌then◌else◌, beq,
}
use llmsentinel_router.Prelude.Int.{ℤ}
use llmsentinel_router.Prelude.Float.{Float64, IsOrdered}
use llmsentinel_router.Exec.{
  Error, Result, ok, err, adjustment_failed, Exec, pure, raise, proceed, ◌>>=◌,
}
use llmsentinel_router.Storage.Database.{
  Session, Statement, charge_within_limit, refund, Outcome, done, refused, lost, Turn, Db, exec,
  select_session, next_turn, finish_exec, finish_select,
}
use llmsentinel_router.Storage.Sessions.{
  get_session, found_or_no_rows, get_session_required, try_reserve_budget, adjust_by,
  adjust_reserved_cost, reserve_rounds, reserve_budget, budget_epsilon,
}
use llmsentinel_router.Storage.Bounds.{
  IsSound, IsGuarded, AllGuarded, apply-IsSound, apply_all-IsSound,
}

module _ {F : Type 0} ⦃fl : Float64 F⦄ where
  abbrev TurnsGuarded : List (Turn F) → Type 0
  TurnsGuarded [] = Unit
  TurnsGuarded (t ∷ ts) = AllGuarded t.others × TurnsGuarded ts

  -- The table is sound, and the statements that others will run are guarded.
  pub record IsSafe (db : Db F) : Type 0 where
    pub sound : IsSound db.sessions
    pub guarded : TurnsGuarded db.turns

  -- `m` keeps the database safe, whether it succeeds or fails.
  pub record Keeps {A : Type 0} (m : Exec (Db F) A) : Type 0 where
    pub at : (db : Db F) → IsSafe db → IsSafe (m db).1

  pub Keeps-pure : {A : Type 0} (a : A) → Keeps (pure a)
  Keeps-pure a = record { at = λ db h. h }

  pub Keeps-raise : {A : Type 0} (e : Error) → Keeps {A = A} (raise e)
  Keeps-raise e = record { at = λ db h. h }

  pub Keeps-if :
      {A : Type 0} (b : Bool) (m n : Exec (Db F) A)
      → (b ≡ true → Keeps m)
      → (b ≡ false → Keeps n)
      → Keeps (if b then m else n)
  Keeps-if true m n h k = h refl
  Keeps-if false m n h k = k refl

  proceed-IsSafe :
      {A B : Type 0} (r : Result A) (f : A → Exec (Db F) B) (db : Db F)
      → ((a : A) → Keeps (f a))
      → IsSafe db
      → IsSafe (proceed r f db).1
  proceed-IsSafe (ok a) f db k h = (k a).at db h
  proceed-IsSafe (err e) f db k h = h

  pub Keeps-bind :
      {A B : Type 0} (m : Exec (Db F) A) (f : A → Exec (Db F) B)
      → Keeps m
      → ((a : A) → Keeps (f a))
      → Keeps (m >>= f)
  unfolding ◌>>=◌
  Keeps-bind m f km kf = record { at = λ db h. proceed-IsSafe (m db).0 f (m db).1 kf (km.at db h) }

module _ {F : Type 0} ⦃fl : Float64 F⦄ (o : IsOrdered F) where
  next_turn-IsSafe :
      (ts : List (Turn F)) (db : Db F) → TurnsGuarded ts → IsSafe db → IsSafe (next_turn ts db).1
  next_turn-IsSafe [] db g h = h
  next_turn-IsSafe (t ∷ ts) db g h = record {
    sound = apply_all-IsSound o t.others db.sessions g.0 h.sound;
    guarded = g.1;
  }

  finish_exec-IsSafe :
      (st : Statement F) (x : Outcome) (db : Db F)
      → IsGuarded st
      → IsSafe db
      → IsSafe (finish_exec st x db).1
  finish_exec-IsSafe st done db g h = record {
    sound = apply-IsSound o st db.sessions g h.sound;
    guarded = h.guarded;
  }
  finish_exec-IsSafe st (refused e) db g h = h
  finish_exec-IsSafe st (lost e) db g h = record {
    sound = apply-IsSound o st db.sessions g h.sound;
    guarded = h.guarded;
  }

  finish_select-IsSafe :
      (id : String) (x : Outcome) (db : Db F) → IsSafe db → IsSafe (finish_select id x db).1
  finish_select-IsSafe id done db h = h
  finish_select-IsSafe id (refused e) db h = h
  finish_select-IsSafe id (lost e) db h = h

  pub exec-Keeps : (st : Statement F) → IsGuarded st → Keeps (exec st)
  unfolding exec
  exec-Keeps st g = record {
    at = λ db h.
        finish_exec-IsSafe st (next_turn db.turns db).0 (next_turn db.turns db).1 g
          (next_turn-IsSafe db.turns db h.guarded h);
  }

  pub get_session-Keeps : (id : String) → Keeps {F = F} (get_session id)
  unfolding get_session select_session
  get_session-Keeps id = record {
    at = λ db h.
        finish_select-IsSafe id (next_turn db.turns db).0 (next_turn db.turns db).1
          (next_turn-IsSafe db.turns db h.guarded h);
  }

  pub found_or_no_rows-Keeps : (s : Option (Session F)) → Keeps (found_or_no_rows s)
  found_or_no_rows-Keeps none = Keeps-raise _
  found_or_no_rows-Keeps (some s) = Keeps-pure s

  pub get_session_required-Keeps : (id : String) → Keeps {F = F} (get_session_required id)
  unfolding get_session_required
  get_session_required-Keeps id =
      Keeps-bind (get_session id) found_or_no_rows (get_session-Keeps id) found_or_no_rows-Keeps

  try_reserve_budget-Keeps :
      (id : String) (c : F) → fl.lt c (fl.lit 0) ≡ false → Keeps (try_reserve_budget id c)
  unfolding try_reserve_budget
  try_reserve_budget-Keeps id c h =
      Keeps-bind _ _ (exec-Keeps (charge_within_limit id c) h) (λ n. Keeps-pure _)

  reserve_rounds-Keeps :
      (n : ℕ) (b : Bool) (id : String) (c : F)
      → fl.lt c (fl.lit 0) ≡ false
      → Keeps (reserve_rounds n b id c)
  unfolding reserve_rounds
  reserve_rounds-Keeps zero true id c h = Keeps-raise _
  reserve_rounds-Keeps zero false id c h = Keeps-pure false
  reserve_rounds-Keeps (suc n) b id c h =
      Keeps-bind _ _ (try_reserve_budget-Keeps id c h) λ reserved.
        Keeps-if reserved _ _ (λ e. Keeps-pure true)
          λ e. Keeps-bind _ _ (get_session-Keeps id) λ found.
            Keeps-bind _ _ (found_or_no_rows-Keeps found) λ s.
              Keeps-if (not s.is_active) _ _ (λ e. Keeps-pure false)
                λ e.
                  Keeps-if (fl.lt s.max_cost_per_session (fl.add s.current_cost c)) _ _
                    (λ e. Keeps-pure false) λ e. reserve_rounds-Keeps n true id c h

  -- A reservation of a cost that is not negative keeps the database safe, on every path.
  pub reserve_budget-Keeps :
      (id : String) (c : F) (retries : ℤ)
      → fl.lt c (fl.lit 0) ≡ false
      → Keeps (reserve_budget id c retries)
  unfolding reserve_budget
  reserve_budget-Keeps id c retries h = reserve_rounds-Keeps _ false id c h

  adjust_by-Keeps : (id : String) (diff : F) → Keeps (adjust_by id diff)
  unfolding adjust_by
  adjust_by-Keeps id diff =
      Keeps-if (fl.lt diff (fl.lit 0)) _ _
        (λ negative. Keeps-bind _ _ (exec-Keeps (refund id diff) negative) (λ n. Keeps-pure tt))
        λ positive. Keeps-bind _ _ (exec-Keeps (charge_within_limit id diff) positive) λ rows.
          Keeps-if (beq rows 1) _ _ (λ e. Keeps-pure tt) (λ e. Keeps-raise adjustment_failed)

  -- A settlement keeps the database safe, whatever the reserved and the actual cost.
  pub adjust_reserved_cost-Keeps :
      (id : String) (reserved actual : F) → Keeps (adjust_reserved_cost id reserved actual)
  adjust_reserved_cost-Keeps id reserved actual =
      let diff = fl.sub actual reserved in
      unfold adjust_reserved_cost in
      Keeps-if (fl.lt (fl.abs diff) budget_epsilon) (pure tt) (adjust_by id diff)
        (λ e. Keeps-pure tt) (λ e. adjust_by-Keeps id diff)
