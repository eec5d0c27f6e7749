-- ===== src/Router/Settled.antt =====
-- What Route of internal/router/router.go charges a session that is there and has room, with no other
-- caller and no failing statement, while the kill switch is on: for an answer, and where no provider
-- answers.
use llmsentinel_router.Prelude.{
  ℕ, String, ◌≡◌, refl, ap, sym, ◌∙◌, subst, true, Option, none, some, [], if◌then◌else◌, eq_refl,
}
use llmsentinel_router.Prelude.Float.{Float64}
use llmsentinel_router.Prelude.Map.{lookup, insert, lookup-insert}
use llmsentinel_router.Exec.{Error, ok, err, ◌>>=◌, >>=-ok, >>=-err, >>=-eq-ok, ok_injective}
use llmsentinel_router.Storage.Database.{Session, Table, Db, charged, select_session}
use llmsentinel_router.Storage.Sessions.{get_session_required, found_or_no_rows}
use llmsentinel_router.Config.{SentinelConfig}
use llmsentinel_router.Budget.{settle_cost, add_cost}
use llmsentinel_router.Budget.Alone.{alone, settle_cost-quiet}
use llmsentinel_router.Router.Decision.{final_cost}
use llmsentinel_router.Router.World.{World, Request, Outside, on_db}
use llmsentinel_router.Router.Route.{Draft, Called, or_text, worst_case, draft, routed}
use llmsentinel_router.Router.Finish.{
  Answer, remember, settle, answer, pay, conclude, finish, route_on, with_config, route,
}
use llmsentinel_router.Router.Frame.{routed-Preserves}
use llmsentinel_router.Router.Reached.{routed_fails}
use llmsentinel_router.Router.Inversion.{IsFinished, finish-IsFinished}
use llmsentinel_router.Router.Money.{remember-purse, report-Preserves, conclude-Preserves}
use llmsentinel_router.Router.Alone.{HasRoom, held, IsHeld, draft-IsHeld}

module _ {F : Type 0} ⦃fl : Float64 F⦄ where
  -- From a draft that holds the reservation on.
  route_held :
      (out : Outside F) (cfg : SentinelConfig F) (rq : Request) (w : World F) (id : String)
      (t : Table F) (r : Session F)
      → w.router.config ≡ some cfg
      → (h : IsHeld out cfg rq w id t r)
      → route out rq w
        ≡ (routed out cfg rq.use_judge h.draft_of >>= finish out cfg rq h.draft_of) h.after
  unfolding route route_on
  route_held out cfg rq w id t r loaded h =
      ap (λ c. with_config out rq c w) loaded ∙ >>=-ok (draft out cfg rq) _ w h.is_drafted

  -- Where no provider ever answers, a request for such a session ends in an error, and the reservation
  -- of 5.0 stays charged to the session.
  pub route_leaks :
      (out : Outside F) (cfg : SentinelConfig F) (rq : Request) (w : World F) (t : Table F)
      (r : Session F)
      → w.router.config ≡ some cfg
      → HasRoom w (or_text rq.session_id out.session_id) t r
      → ((n : ℕ) (id key : String) → (e : Error) × (out.first.call n id key ≡ err e))
      → ((n : ℕ) (id key : String) → (e : Error) × (out.second.call n id key ≡ err e))
      → (e : Error) × ((route out rq w).0 ≡ err e)
        × ((route out rq w).1.db
            ≡ alone (insert (or_text rq.session_id out.session_id) (charged worst_case r) t))
  route_leaks out cfg rq w t r loaded room first second =
      let h = draft-IsHeld out cfg rq w t r room in
      let (e, failed) = routed_fails out cfg rq.use_judge h.draft_of h.after first second in
      let ran =
        route_held out cfg rq w (or_text rq.session_id out.session_id) t r loaded h
        ∙ >>=-err (routed out cfg rq.use_judge h.draft_of) (finish out cfg rq h.draft_of) h.after
            failed in
      (
        e,
        ap (λ x. x.0) ran,
        ap (λ x. x.1.db) ran
            ∙ ap (λ p. p.0) ((routed-Preserves out cfg rq.use_judge h.draft_of).at h.after)
            ∙ h.charged_to,
      )

  -- A read of a session by a caller that is alone.
  read_alone :
      (id : String) (t : Table F) (s : Session F) (db : Db F)
      → get_session_required id (alone t) ≡ (ok s, db)
      → (lookup id t ≡ some s) × (db ≡ alone t)
  unfolding get_session_required ◌>>=◌ select_session
  read_alone id t s db h = of_row (lookup id t) h
    where
      of_row :
          (found : Option (Session F))
          → found_or_no_rows found (alone t) ≡ (ok s, db)
          → (found ≡ some s) × (db ≡ alone t)
      of_row none h = absurd (cc (ap (λ x. x.0) h))
      of_row (some s') h = (ap some (ok_injective (ap (λ x. x.0) h)), ap (λ x. x.1) (sym h))

  read_quiet :
      (id : String) (w w' : World F) (s : Session F)
      → w.db.turns ≡ []
      → on_db (get_session_required id) w ≡ (ok s, w')
      → (lookup id w.db.sessions ≡ some s) × (w'.db ≡ w.db)
  unfolding on_db
  read_quiet id w w' s quiet h =
      let same : alone w.db.sessions ≡ w.db =
        ap (λ ts. record { sessions = w.db.sessions; turns = ts }) (sym quiet) in
      let (here, kept) =
        read_alone id w.db.sessions s w'.db
          (ap (get_session_required id) same ∙ ap (λ x. (x.0, x.1.db)) h) in
      (here, kept ∙ same)

  settle_db :
      (d : Draft F) (cost : F) (w : World F)
      → w.router.settings.enable_budget_kill_switch ≡ true
      → (settle d cost w).1.db ≡ (settle_cost d.id d.reserved cost w.db).1
  unfolding settle on_db
  settle_db d cost w h =
      ap
        (λ b.
          (if b
            then on_db (settle_cost d.id d.reserved cost) w
            else on_db (add_cost d.id cost) w).1.db)
        h

  pay_db :
      (out : Outside F) (d : Draft F) (c : Called F) (w : World F)
      → w.router.settings.enable_budget_kill_switch ≡ true
      → (pay out d c w).1.db ≡ (settle_cost d.id d.reserved (final_cost c.reply.cost).0 w.db).1
  unfolding pay
  pay_db out d c w h =
      let same = remember-purse out d c.reply w in
      settle_db d (final_cost c.reply.cost).0 (remember out d c.reply w)
        (ap (λ p. p.1.enable_budget_kill_switch) same ∙ h)
      ∙ ap (λ p. (settle_cost d.id d.reserved (final_cost c.reply.cost).0 p.0).1) same

  -- The money of an answer.
  record IsPaid (id : String) (t : Table F) (r : Session F) (a : Answer F) (w' : World F)
      : Type 0 where
    settled : w'.db ≡ (settle_cost id worst_case a.cost (held id t r)).1
    row : Session F
    here : lookup id w'.db.sessions ≡ some row
    shown : a.session_cost ≡ row.current_cost

  finished-IsPaid :
      (out : Outside F) (cfg : SentinelConfig F) (rq : Request) (id : String) (t : Table F)
      (r : Session F) (d : Draft F) (c : Called F) (w w' : World F) (a : Answer F)
      → d.id ≡ id
      → d.reserved ≡ worst_case
      → w.db ≡ held id t r
      → w.router.settings.enable_budget_kill_switch ≡ true
      → IsFinished out cfg rq d c w a w'
      → IsPaid id t r a w'
  unfolding answer conclude
  finished-IsPaid out cfg rq id t r d c w w' a of_session amount charged_to on fin =
      let cost = (final_cost c.reply.cost).0 in
      let same : answer rq d c fin.session ≡ a = ok_injective (ap (λ x. x.0) fin.concluded) in
      let paid : fin.paid.db ≡ (settle_cost id worst_case cost (held id t r)).1 =
        ap (λ x. x.1.db) (sym fin.settled)
        ∙ pay_db out d c w on
        ∙ ap (λ i. (settle_cost i d.reserved cost w.db).1) of_session
        ∙ ap (λ x. (settle_cost id x cost w.db).1) amount
        ∙ ap (λ db. (settle_cost id worst_case cost db).1) charged_to in
      let quiet : fin.paid.db.turns ≡ [] =
        ap (λ db. db.turns) paid
        ∙ settle_cost-quiet id worst_case cost (insert id (charged worst_case r) t)
            (charged worst_case r) (simp (lookup-insert, eq_refl)) in
      let (here, read) = read_quiet d.id fin.paid fin.read fin.session quiet fin.row in
      let last : w'.db ≡ fin.paid.db =
        ap (λ x. x.1.db) (sym fin.concluded)
        ∙ ap (λ p. p.0) ((conclude-Preserves out cfg rq d c fin.session).at fin.logged)
        ∙ ap (λ x. x.1.db) (sym fin.written)
        ∙ ap (λ p. p.0) ((report-Preserves out rq d c).at fin.read)
        ∙ read in
      subst (λ a. IsPaid id t r a w') same
        (record {
          settled = last ∙ paid;
          row = fin.session;
          here =
              ap (λ db. lookup id db.sessions) last
              ∙ ap (λ i. lookup i fin.paid.db.sessions) (sym of_session)
              ∙ here;
          shown = refl;
        })

  -- For an answer the table of sessions is what RequireBudget of 5.0 and then SettleCost of the cost of
  -- the answer make of it, and the cost of the session in the answer is the one in that table.
  pub route_settles :
      (out : Outside F) (cfg : SentinelConfig F) (rq : Request) (w w' : World F) (t : Table F)
      (r : Session F) (a : Answer F)
      → w.router.config ≡ some cfg
      → HasRoom w (or_text rq.session_id out.session_id) t r
      → route out rq w ≡ (ok a, w')
      → let id = or_text rq.session_id out.session_id in
        (w'.db ≡ (settle_cost id worst_case a.cost (alone (insert id (charged worst_case r) t))).1)
        × ((row : Session F) × (lookup id w'.db.sessions ≡ some row)
            × (a.session_cost ≡ row.current_cost))
  route_settles out cfg rq w w' t r a loaded room h =
      let id = or_text rq.session_id out.session_id in
      let held_by = draft-IsHeld out cfg rq w t r room in
      let d = held_by.draft_of in
      let w₁ = held_by.after in
      let (c, called, rest) =
        >>=-eq-ok (routed out cfg rq.use_judge d) (finish out cfg rq d) w₁
          (sym (route_held out cfg rq w id t r loaded held_by) ∙ h) in
      let same = (routed-Preserves out cfg rq.use_judge d).at w₁ in
      let paid =
        finished-IsPaid out cfg rq id t r d c (routed out cfg rq.use_judge d w₁).1 w' a
          held_by.of_session held_by.amount (ap (λ p. p.0) same ∙ held_by.charged_to)
          (ap (λ p. p.2.enable_budget_kill_switch) same ∙ held_by.kill_switch)
          (finish-IsFinished out cfg rq d c (routed out cfg rq.use_judge d w₁).1 w' a rest) in
      (paid.settled, (paid.row, paid.here, paid.shown))
