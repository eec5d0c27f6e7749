-- ===== src/Router/Alone.antt =====
-- What Route of internal/router/router.go does to the sessions table for a session that is there and
-- has room, with no other caller and no failing statement, while the kill switch is on.
use llmsentinel_router.Prelude.{
  ℕ, String, ◌≡◌, refl, ap, sym, ◌∙◌, Bool, true, false, ◌&&◌, some, List, if◌then◌else◌,
}
use llmsentinel_router.Prelude.Float.{Float64}
use llmsentinel_router.Prelude.Map.{lookup, insert}
use llmsentinel_router.Exec.{Result, ok, Exec, pure, ◌>>◌, >>=-ok}
use llmsentinel_router.Storage.Database.{Session, Table, Db, fits, charged}
use llmsentinel_router.Storage.Creation.{get_or_create_session_there}
use llmsentinel_router.Config.{SentinelConfig}
use llmsentinel_router.Cycle
use llmsentinel_router.Cycle.{detect_prompt, Detector}
use llmsentinel_router.Budget
use llmsentinel_router.Budget.{require_budget, settle_cost}
use llmsentinel_router.Budget.Alone.{alone, require_budget_granted}
use llmsentinel_router.Router.World.{Message, World, Request, Outside, on_db, shown}
use llmsentinel_router.Router.Route.{
  Draft, or_text, worst_case, look_up, reserve, detect, drafted, draft,
}

module _ {F : Type 0} where
  abbrev with_db : Db F → World F → World F
  with_db db w = record w { db = db }

  on_db_gives :
      {A : Type 0} (m : Exec (Db F) A) (w : World F) (x : Result A) (db : Db F)
      → m w.db ≡ (x, db)
      → on_db m w ≡ (x, with_db db w)
  unfolding on_db
  on_db_gives m w x db h = ap (λ p. (p.0, with_db p.1 w)) h

module _ {F : Type 0} ⦃fl : Float64 F⦄ where
  -- The kill switch is on, the caller is alone, and the session is there with room for the reservation.
  pub record HasRoom (w : World F) (id : String) (t : Table F) (r : Session F) : Type 0 where
    pub kill_switch : w.router.settings.enable_budget_kill_switch ≡ true
    pub quiet : w.db ≡ alone t
    pub here : lookup id t ≡ some r
    pub room : fits worst_case r ≡ true

  -- The table with the reservation.
  abbrev pub held : String → Table F → Session F → Db F
  held id t r = alone (insert id (charged worst_case r) t)

  create_found :
      (m : Budget.Manager F) (id ip tier : String) (now : ℕ) (t : Table F) (r : Session F)
      → lookup id t ≡ some r
      → Budget.get_or_create_session m id ip tier now (alone t) ≡ (ok r, alone t)
  unfolding Budget.get_or_create_session
  create_found m id ip tier now t r here =
      get_or_create_session_there id ip tier m.max_cost_per_session now t r here

  look_up_ok :
      (out : Outside F) (cfg : SentinelConfig F) (prompt : String) (messages : List Message)
      (w : World F)
      → (c : String × F × Bool) × (look_up out cfg prompt messages w
          ≡ (ok c, (look_up out cfg prompt messages w).1))
        × ((look_up out cfg prompt messages w).1.db ≡ w.db)
        × ((look_up out cfg prompt messages w).1.router.settings ≡ w.router.settings)
  unfolding look_up
  look_up_ok out cfg prompt messages w = of_test _ _ _ _ _ refl refl refl refl
    where
      of_test :
          (b : Bool) (x y : String × F × Bool) (v v' : World F)
          → v.db ≡ w.db
          → v.router.settings ≡ w.router.settings
          → v'.db ≡ w.db
          → v'.router.settings ≡ w.router.settings
          → let z : Result (String × F × Bool) × World F = if b then (ok x, v) else (ok y, v') in
            (c : String × F × Bool) × (z ≡ (ok c, z.1))
            × (z.1.db ≡ w.db)
            × (z.1.router.settings ≡ w.router.settings)
      of_test true x y v v' h k h' k' = (x, refl, h, k)
      of_test false x y v v' h k h' k' = (y, refl, h', k')

  reserve-held :
      (out : Outside F) (id : String) (w : World F) (t : Table F) (r : Session F)
      → HasRoom w id t r
      → reserve out id w ≡ (ok worst_case, with_db (held id t r) w)
  unfolding reserve
  reserve-held out id w t r h =
      let m = require_budget w.router.budget id (worst_case ⦃fl = fl⦄) out.created in
      let granted : m w.db ≡ (ok (charged worst_case r), held id t r) =
        ap m h.quiet
        ∙ require_budget_granted w.router.budget id worst_case out.created t r h.here h.room in
      ap (λ b. if b then (on_db m >> pure (worst_case ⦃fl = fl⦄)) w else (ok (fl.lit 0), w))
        h.kill_switch
      ∙ >>=-ok (on_db m) (λ s. pure (worst_case ⦃fl = fl⦄)) w (on_db_gives m w _ _ granted)

  -- A draft that holds the reservation.
  pub record IsHeld (out : Outside F) (cfg : SentinelConfig F) (rq : Request) (w : World F)
      (id : String) (t : Table F) (r : Session F) : Type 0 where
    pub draft_of : Draft F
    pub after : World F
    pub is_drafted : draft out cfg rq w ≡ (ok draft_of, after)
    pub of_session : draft_of.id ≡ id
    pub amount : draft_of.reserved ≡ worst_case
    pub charged_to : after.db ≡ held id t r
    pub kill_switch : after.router.settings.enable_budget_kill_switch ≡ true

  pub draft-IsHeld :
      (out : Outside F) (cfg : SentinelConfig F) (rq : Request) (w : World F) (t : Table F)
      (r : Session F)
      → let id = or_text rq.session_id out.session_id in
        HasRoom w id t r → IsHeld out cfg rq w id t r
  unfolding draft detect
  draft-IsHeld out cfg rq w t r h =
      let id = or_text rq.session_id out.session_id in
      let (prompt, messages) = shown out w.router.redactor rq in
      let create =
        Budget.get_or_create_session w.router.budget id rq.client_ip (or_text rq.tier "free")
          out.created in
      let created : create w.db ≡ (ok r, w.db) =
        ap create h.quiet
        ∙ create_found w.router.budget id rq.client_ip (or_text rq.tier "free") out.created t r
            h.here
        ∙ ap (λ db. (ok r, db)) (sym h.quiet) in
      let (cached, looked, same_db, same_settings) = look_up_ok out cfg prompt messages w in
      let w₂ = (look_up out cfg prompt messages w).1 in
      let room : HasRoom w₂ id t r = record {
        kill_switch = ap (λ s. s.enable_budget_kill_switch) same_settings ∙ h.kill_switch;
        quiet = same_db ∙ h.quiet;
        here = h.here;
        room = h.room;
      } in
      let w₃ = with_db (held id t r) w₂ in
      let cycle = (Cycle.get id w₃.router.cycles).1 in
      let seen : Detector × Bool = (
        cycle,
        w₃.router.settings.enable_cycle_detection && detect_prompt out.digest prompt cycle,
      ) in
      let told : Draft F = drafted id (prompt, messages) cached worst_case seen in
      let w₄ = (detect out id prompt w₃).1 in
      record {
        draft_of = told;
        after = w₄;
        is_drafted =
            >>=-ok (on_db create) _ w (on_db_gives create w (ok r) w.db created)
            ∙ >>=-ok (look_up out cfg prompt messages) _ w looked
            ∙ >>=-ok (reserve out id) _ w₂ (reserve-held out id w₂ t r room)
            ∙ >>=-ok (detect out id prompt)
                (λ found. pure (drafted id (prompt, messages) cached worst_case found)) w₃ refl;
        of_session = refl;
        amount = refl;
        charged_to = refl;
        kill_switch = room.kill_switch;
      }
