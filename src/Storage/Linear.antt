-- ===== src/Storage/Linear.antt =====
-- ReserveBudget acts at one moment: whatever others do between its statements, a reservation that is
-- granted has charged the session exactly once, within its limit at that moment, and one that is
-- refused has charged nothing.
use llmsentinel_router.Prelude.{
  ℕ, zero, suc, String, ◌≡◌, refl, ap, sym, ◌∙◌, Bool, true, false, not, Option, none, some, List,
  [], ◌∷◌, ◌++◌, append-nil, if◌then◌else◌, arith, ◌⊎◌, inl, inr, subst, Bool-cases, beq, take,
  drop,
}
use llmsentinel_router.Prelude.Int.{ℤ}
use llmsentinel_router.Prelude.Float.{Float64}
use llmsentinel_router.Exec.{ok, Exec, pure, ◌>>=◌, >>=-eq-ok}
use llmsentinel_router.Storage.Database.{
  Session, Statement, Table, charge_within_limit, apply, apply_all, Outcome, done, refused, lost,
  Turn, Db, exec, select_session, finish_exec,
}
use llmsentinel_router.Storage.Sessions.{
  get_session, found_or_no_rows, try_reserve_budget, after_conflict, reserve_rounds, reserve_budget,
}

module _ {F : Type 0} ⦃fl : Float64 F⦄ where
  -- The statements of others in a list of turns.
  abbrev pub statements : List (Turn F) → List (Statement F)
  statements [] = []
  statements (t ∷ ts) = t.others ++ statements ts

  -- The database after the first `k` turns of a run in which the caller has written nothing.
  abbrev pub after : ℕ → Db F → Db F
  after k db = record {
    sessions = apply_all (statements (take k db.turns)) db.sessions;
    turns = drop k db.turns;
  }

  apply_all-append :
      (xs ys : List (Statement F)) (t : Table F)
      → apply_all (xs ++ ys) t ≡ apply_all ys (apply_all xs t)
  unfolding apply_all
  apply_all-append [] ys t = refl
  apply_all-append (x ∷ xs) ys t = apply_all-append xs ys (apply x t).1

  abbrev mk : Table F → List (Turn F) → Db F
  mk s ts = record { sessions = s; turns = ts }

  after-suc :
      (k : ℕ) (s : Table F) (ts : List (Turn F))
      → after (suc k) (mk s ts) ≡ after k (after 1 (mk s ts))
  unfolding apply_all
  after-suc zero s [] = refl
  after-suc (suc k) s [] = refl
  after-suc k s (t ∷ ts) = rw (append-nil, apply_all-append)

  select-after :
      (id : String) (s : Table F) (ts : List (Turn F)) (o : Option (Session F))
      → (get_session id (mk s ts)).0 ≡ ok o
      → (get_session id (mk s ts)).1 ≡ after 1 (mk s ts)
  unfolding get_session select_session apply_all
  select-after id s [] o h = refl
  select-after id s (t ∷ ts) o h = ground (arith, append-nil t.others)

  finish-after :
      (st : Statement F) (x : Outcome) (d : Db F) (n : ℕ)
      → (finish_exec st x d).0 ≡ ok n
      → (apply st d.sessions ≡ (ok n, (finish_exec st x d).1.sessions))
        × ((finish_exec st x d).1.turns ≡ d.turns)
  finish-after st done d n h = (ap (λ r. (r, (apply st d.sessions).1)) h, refl)
  finish-after st (refused e) d n h = absurd (cc)
  finish-after st (lost e) d n h = absurd (cc)

  -- What a charge that reports a number of rows has done.
  charge-after :
      (id : String) (c : F) (s : Table F) (ts : List (Turn F)) (n : ℕ)
      → (exec (charge_within_limit id c) (mk s ts)).0 ≡ ok n
      → let a = after 1 (mk s ts) in
        (apply (charge_within_limit id c) a.sessions
          ≡ (ok n, (exec (charge_within_limit id c) (mk s ts)).1.sessions))
        × ((exec (charge_within_limit id c) (mk s ts)).1.turns ≡ a.turns)
  unfolding exec apply_all
  charge-after id c s [] n h = finish-after (charge_within_limit id c) done (mk s []) n h
  charge-after id c s (t ∷ ts) n h =
      rw append-nil
        (finish-after (charge_within_limit id c) t.outcome (mk (apply_all t.others s) ts) n h)

  charge-rows :
      (id : String) (c : F) (t t' : Table F) (n : ℕ)
      → apply (charge_within_limit id c) t ≡ (ok n, t')
      → beq n 1 ≡ false
      → t' ≡ t
  unfolding apply
  charge-rows id c t t' n h k = ground arith

  -- A reservation that answers `r` leaves `d`: it has charged the table that others have made by
  -- turn `k`, or has left that table as it is.
  abbrev pub Decided : String → F → Db F → Db F → ℕ → Bool → Type 0
  Decided id c db d k true =
      (apply (charge_within_limit id c) (after k db).sessions ≡ (ok 1, d.sessions))
      × (d.turns ≡ (after k db).turns)
  Decided id c db d k false = d ≡ after k db

  try-Decided :
      (id : String) (c : F) (s : Table F) (ts : List (Turn F)) (n : ℕ) (d : Db F) (r : Bool)
      → (exec (charge_within_limit id c) (mk s ts)).0 ≡ ok n
      → (exec (charge_within_limit id c) (mk s ts)).1 ≡ d
      → beq n 1 ≡ r
      → Decided id c (mk s ts) d 1 r
  try-Decided id c s ts n d true h e t =
      let (run, turns) = charge-after id c s ts n h in
      let one : n ≡ 1 = ground arith in
      (
        subst
            (λ x.
              apply (charge_within_limit id c) (after 1 (mk s ts)).sessions ≡ (ok 1, x.sessions))
            e
            (subst
              (λ x.
                apply (charge_within_limit id c) (after 1 (mk s ts)).sessions
                ≡ (ok x, (exec (charge_within_limit id c) (mk s ts)).1.sessions))
              one run),
        subst (λ x. x.turns ≡ (after 1 (mk s ts)).turns) e turns,
      )
  try-Decided id c s ts n d false h e t =
      let (run, turns) = charge-after id c s ts n h in
      let same =
        charge-rows id c (after 1 (mk s ts)).sessions
          (exec (charge_within_limit id c) (mk s ts)).1.sessions n run t in
      sym e ∙ (λ i. record { sessions = same i; turns = turns i })

  conflict-step :
      (o : Option (Session F)) (c : F) (again : Exec (Db F) Bool) (db : Db F) (r : Bool) (d : Db F)
      → (found_or_no_rows o >>= λ session. after_conflict session c again) db ≡ (ok r, d)
      → ((d ≡ db) × (r ≡ false)) ⊎ (again db ≡ (ok r, d))
  unfolding ◌>>=◌
  conflict-step none c again db r d h = absurd (cc (ap (λ p. p.0) h))
  conflict-step (some x) c again db r d h = elim (Bool-cases (not x.is_active)) [
    | inl closed ↦ inl (stop closed)
    | inr active ↦ elim (Bool-cases (fl.lt x.max_cost_per_session (fl.add x.current_cost c))) [
      | inl full ↦ inl (ground (arith, h, full, active))
      | inr room ↦ inr (rw (active, room) at h)
    ]
  ]
    where
      stop : not x.is_active ≡ true → (d ≡ db) × (r ≡ false)
      stop closed = ground (arith, h, closed)

  goes_on :
      (id : String) (c : F) (again : Exec (Db F) Bool) (s : Table F) (ts : List (Turn F)) (r : Bool)
      (d : Db F)
      → (get_session id >>= λ found.
            found_or_no_rows found >>= λ session. after_conflict session c again)
          (mk s ts)
        ≡ (ok r, d)
      → ((d ≡ after 1 (mk s ts)) × (r ≡ false)) ⊎ (again (after 1 (mk s ts)) ≡ (ok r, d))
  goes_on id c again s ts r d h =
      let (o, first, rest) = >>=-eq-ok (get_session id) _ (mk s ts) h in
      let there : (get_session id (mk s ts)).1 ≡ after 1 (mk s ts) =
        select-after id s ts o (ap (λ p. p.0) first) in
      elim (conflict-step o c again (get_session id (mk s ts)).1 r d rest) [
        | inl (stay, no_room) ↦ inl (stay ∙ there, no_room)
        | inr more ↦ inr (subst (λ x. again x ≡ (ok r, d)) there more)
      ]

  after_twice : (k : ℕ) (db : Db F) → after (suc (suc k)) db ≡ after k (after 1 (after 1 db))
  after_twice k db = after-suc (suc k) db.sessions db.turns ∙ after-suc k _ _

  Decided-later :
      (id : String) (c : F) (db d : Db F) (k : ℕ) (r : Bool)
      → Decided id c (after 1 (after 1 db)) d k r
      → Decided id c db d (suc (suc k)) r
  Decided-later id c db d k true h =
      subst
        (λ x.
          (apply (charge_within_limit id c) x.sessions ≡ (ok 1, d.sessions)) × (d.turns ≡ x.turns))
        (sym (after_twice k db)) h
  Decided-later id c db d k false h = h ∙ sym (after_twice k db)

  try_reserve_budget-Decided :
      (id : String) (c : F) (db : Db F) (r : Bool) (d : Db F)
      → try_reserve_budget id c db ≡ (ok r, d)
      → Decided id c db d 1 r
  unfolding try_reserve_budget
  try_reserve_budget-Decided id c db r d h =
      let (n, first, rest) = >>=-eq-ok (exec (charge_within_limit id c)) _ db h in
      try-Decided id c db.sessions db.turns n d r (ap (λ p. p.0) first) (ap (λ p. p.1) rest)
        (cc (ap (λ p. p.0) rest))

  -- The rest of a round, after the attempt.
  after_try :
      (id : String) (c : F) (again : Exec (Db F) Bool) (db d' : Db F) (r : Bool) (d : Db F)
      (reserved : Bool)
      → ((d' : Db F) → again d' ≡ (ok r, d) → (k : ℕ) × Decided id c d' d k r)
      → Decided id c db d' 1 reserved
      → (if reserved
            then pure true
            else (get_session id >>= λ found.
                found_or_no_rows found >>= λ session. after_conflict session c again))
          d'
        ≡ (ok r, d)
      → (k : ℕ) × Decided id c db d k r
  after_try id c again db d' r d true ih hit h =
      let won : true ≡ r = cc (ap (λ p. p.0) h) in
      (
        1,
        subst (Decided id c db d 1) won
            (subst (λ x. Decided id c db x 1 true) (ap (λ p. p.1) h) hit),
      )
  after_try id c again db d' r d false ih miss h =
      elim (goes_on id c again d'.sessions d'.turns r d h) [
        | inl (stay, full) ↦ (
          2,
          subst (Decided id c db d 2) (sym full)
              (stay ∙ ap (after 1) miss ∙ sym (after-suc 1 db.sessions db.turns)),
        )
        | inr more ↦
            let (k, later) = ih (after 1 d') more in
            (
              suc (suc k),
              Decided-later id c db d k r (subst (λ x. Decided id c (after 1 x) d k r) miss later),
            )
      ]

  reserve_rounds-Decided :
      (n : ℕ) (b : Bool) (id : String) (c : F) (db : Db F) (r : Bool) (d : Db F)
      → reserve_rounds n b id c db ≡ (ok r, d)
      → (k : ℕ) × Decided id c db d k r
  unfolding reserve_rounds apply_all
  reserve_rounds-Decided zero true id c db r d h = absurd (cc (ap (λ p. p.0) h))
  reserve_rounds-Decided zero false id c db true d h = absurd (cc (ap (λ p. p.0) h))
  reserve_rounds-Decided zero false id c db false d h = (0, sym (ap (λ p. p.1) h))
  reserve_rounds-Decided (suc n) b id c db r d h =
      let (reserved, first, rest) = >>=-eq-ok (try_reserve_budget id c) _ db h in
      after_try id c (reserve_rounds n true id c) db (try_reserve_budget id c db).1 r d reserved
        (λ d' again. reserve_rounds-Decided n true id c d' r d again)
        (try_reserve_budget-Decided id c db reserved (try_reserve_budget id c db).1 first) rest

  -- ReserveBudget is linearizable: if it answers `r` and leaves the database `d`, then for some
  -- number `k` of turns of the environment either `r` is true and `d` is what one successful charge
  -- makes of the table after those turns, or `r` is false and `d` is the table after those turns.
  pub reserve_budget-Decided :
      (id : String) (c : F) (retries : ℤ) (db : Db F) (r : Bool) (d : Db F)
      → reserve_budget id c retries db ≡ (ok r, d)
      → (k : ℕ) × Decided id c db d k r
  unfolding reserve_budget
  reserve_budget-Decided id c retries db r d h = reserve_rounds-Decided _ false id c db r d h
