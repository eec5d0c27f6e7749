-- ===== src/Router/Inversion.antt =====
-- What a request that Route of internal/router/router.go answers has done, step by step.
use llmsentinel_router.Prelude.{String, ◌≡◌, refl, ap, sym, ◌∙◌, List}
use llmsentinel_router.Prelude.Float.{Float64}
use llmsentinel_router.Exec.{ok, Exec, pure, ◌>>=◌, >>=-eq-ok, ok_injective}
use llmsentinel_router.Exec.Preserves.{Preserves, Preserves-bind, Preserves-pure, part_if_outcome}
use llmsentinel_router.Storage.Database.{Session, Db}
use llmsentinel_router.Storage.Sessions.{get_session_required}
use llmsentinel_router.Storage.Logs.{Logs}
use llmsentinel_router.Config.{SentinelConfig}
use llmsentinel_router.Config.Settings.{Settings}
use llmsentinel_router.Budget
use llmsentinel_router.Budget.{require_budget}
use llmsentinel_router.Rate.{Limiter}
use llmsentinel_router.Redaction.{Engine}
use llmsentinel_router.Router.Models.{Models}
use llmsentinel_router.Router.World.{Message, World, Request, Outside, on_db, shown}
use llmsentinel_router.Router.Route.{
  Draft, Called, or_text, worst_case, look_up, reserve, detect, drafted, draft,
}
use llmsentinel_router.Router.Finish.{Answer, pay, report, conclude, finish}

module _ {F : Type 0} where
  -- The parts that no step of the draft touches.
  abbrev pub outside_draft : World F → Logs F × Settings F × Engine × Models F × Limiter F
  outside_draft w =
      (w.logs, w.router.settings, w.router.redactor, w.router.models, w.router.limiter)

  on_db-Preserves : {A : Type 0} (m : Exec (Db F) A) → Preserves outside_draft (on_db m)
  unfolding on_db
  on_db-Preserves m = record { at = λ w. refl }

module _ {F : Type 0} ⦃fl : Float64 F⦄ where
  look_up-Preserves :
      (out : Outside F) (cfg : SentinelConfig F) (prompt : String) (messages : List Message)
      → Preserves outside_draft (look_up out cfg prompt messages)
  unfolding look_up
  look_up-Preserves out cfg prompt messages = record {
    at = λ w. part_if_outcome outside_draft _ _ _ refl refl;
  }

  detect-Preserves :
      (out : Outside F) (id prompt : String) → Preserves outside_draft (detect out id prompt)
  unfolding detect
  detect-Preserves out id prompt = record { at = λ w. refl }

  reserve-Preserves : (out : Outside F) (id : String) → Preserves outside_draft (reserve out id)
  unfolding reserve
  reserve-Preserves out id = record {
    at = λ w.
        let m = require_budget w.router.budget id (worst_case ⦃fl = fl⦄) out.created in
        let p =
          Preserves-bind outside_draft (on_db m) (λ s. pure (worst_case ⦃fl = fl⦄))
            (on_db-Preserves m) (λ s. Preserves-pure outside_draft (worst_case ⦃fl = fl⦄)) in
        part_if_outcome outside_draft _ _ _ (p.at w) refl;
  }

  pub draft-Preserves :
      (out : Outside F) (cfg : SentinelConfig F) (rq : Request)
      → Preserves outside_draft (draft out cfg rq)
  unfolding draft
  draft-Preserves out cfg rq = record {
    at = λ w.
        let id = or_text rq.session_id out.session_id in
        let (prompt, messages) = shown out w.router.redactor rq in
        let create =
          Budget.get_or_create_session w.router.budget id rq.client_ip (or_text rq.tier "free")
            out.created in
        let p =
          Preserves-bind {B = Draft F} outside_draft (on_db create)
            (λ session. look_up out cfg prompt messages >>= λ cached. reserve out id >>= λ reserved.
              detect out id prompt >>= λ found.
              pure (drafted id (prompt, messages) cached reserved found))
            (on_db-Preserves create)
            λ session.
              Preserves-bind outside_draft (look_up out cfg prompt messages) _
                (look_up-Preserves out cfg prompt messages)
                λ cached.
                  Preserves-bind outside_draft (reserve out id) _ (reserve-Preserves out id)
                    λ reserved.
                      Preserves-bind outside_draft (detect out id prompt) _
                        (detect-Preserves out id prompt)
                        λ found.
                          Preserves-pure outside_draft
                            (drafted id (prompt, messages) cached reserved found) in
        p.at w;
  }

  -- A draft is of the prompt that is shown, and its steps leave the rest of the world as it is.
  pub record IsDrafted (out : Outside F) (rq : Request) (w : World F) (d : Draft F) (w' : World F)
      : Type 0 where
    pub id : d.id ≡ or_text rq.session_id out.session_id
    pub prompt : d.prompt ≡ (shown out w.router.redactor rq).0
    pub rest : outside_draft w' ≡ outside_draft w

  pub draft-IsDrafted :
      (out : Outside F) (cfg : SentinelConfig F) (rq : Request) (w w' : World F) (d : Draft F)
      → draft out cfg rq w ≡ (ok d, w')
      → IsDrafted out rq w d w'
  unfolding draft
  draft-IsDrafted out cfg rq w w' d h =
      let id = or_text rq.session_id out.session_id in
      let (prompt, messages) = shown out w.router.redactor rq in
      let create =
        Budget.get_or_create_session w.router.budget id rq.client_ip (or_text rq.tier "free")
          out.created in
      let w₁ = (on_db create w).1 in
      let w₂ = (look_up out cfg prompt messages w₁).1 in
      let w₃ = (reserve out id w₂).1 in
      let (session, created, h₁) = >>=-eq-ok (on_db create) _ w h in
      let (cached, looked, h₂) = >>=-eq-ok (look_up out cfg prompt messages) _ w₁ h₁ in
      let (reserved, held, h₃) = >>=-eq-ok (reserve out id) _ w₂ h₂ in
      let (found, detected, h₄) =
        >>=-eq-ok (detect out id prompt)
          (λ found. pure (drafted id (prompt, messages) cached reserved found)) w₃ h₃ in
      let same : drafted id (prompt, messages) cached reserved found ≡ d =
        ok_injective (ap (λ x. x.0) h₄) in
      record {
        id = ap (λ d. d.id) (sym same);
        prompt = ap (λ d. d.prompt) (sym same);
        rest = ap (λ x. outside_draft x.1) (sym h) ∙ (draft-Preserves out cfg rq).at w;
      }

  -- The steps of an answer after a reply.
  pub record IsFinished (out : Outside F) (cfg : SentinelConfig F) (rq : Request) (d : Draft F)
      (c : Called F) (w : World F) (a : Answer F) (w' : World F) : Type 0 where
    pub session : Session F
    pub paid : World F
    pub read : World F
    pub logged : World F
    pub settled : pay out d c w ≡ (ok tt, paid)
    pub row : on_db (get_session_required d.id) paid ≡ (ok session, read)
    pub written : report out rq d c read ≡ (ok tt, logged)
    pub concluded : conclude out cfg rq d c session logged ≡ (ok a, w')

  pub finish-IsFinished :
      (out : Outside F) (cfg : SentinelConfig F) (rq : Request) (d : Draft F) (c : Called F)
      (w w' : World F) (a : Answer F)
      → finish out cfg rq d c w ≡ (ok a, w')
      → IsFinished out cfg rq d c w a w'
  unfolding finish
  finish-IsFinished out cfg rq d c w w' a h =
      let w₁ = (pay out d c w).1 in
      let w₂ = (on_db (get_session_required d.id) w₁).1 in
      let w₃ = (report out rq d c w₂).1 in
      let (u, e₁, h₁) = >>=-eq-ok (pay out d c) _ w h in
      let (session, e₂, h₂) = >>=-eq-ok (on_db (get_session_required d.id)) _ w₁ h₁ in
      let (u', e₃, h₃) =
        >>=-eq-ok (report out rq d c) (λ u. conclude out cfg rq d c session) w₂ h₂ in
      record {
        session = session;
        paid = w₁;
        read = w₂;
        logged = w₃;
        settled = e₁;
        row = e₂;
        written = e₃;
        concluded = h₃;
      }
