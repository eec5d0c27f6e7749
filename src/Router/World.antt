-- ===== src/Router/World.antt =====
-- The state of internal/router/router.go, of the stores beside it, and what one request takes from
-- outside of the program.
use llmsentinel_router.Prelude.{
  ℕ, String, Bool, not, ◌&&◌, Option, none, some, List, [], ◌∷◌, if◌then◌else◌, take,
}
use llmsentinel_router.Prelude.Int.{ℤ}
use llmsentinel_router.Prelude.Float.{Float64}
use llmsentinel_router.Prelude.Text.{Strings}
use llmsentinel_router.Exec.{Exec}
use llmsentinel_router.Storage.Database.{Db}
use llmsentinel_router.Storage.Logs.{Logs}
use llmsentinel_router.Config.{SentinelConfig}
use llmsentinel_router.Config.Settings.{Settings}
use llmsentinel_router.Budget
use llmsentinel_router.Threshold.{Dynamic}
use llmsentinel_router.Cycle
use llmsentinel_router.Rate.{Limiter}
use llmsentinel_router.Semantic.Hash.{Digest}
use llmsentinel_router.Semantic.Persistent.{PersistentCache}
use llmsentinel_router.Semantic.Persistent
use llmsentinel_router.Judge.Health.{HealthTracker}
use llmsentinel_router.Judge.Registry.{Verdict, Judges}
use llmsentinel_router.Judge.Rules.{Readers, heuristic, parse}
use llmsentinel_router.Redaction.{
  Engine, Regexps, scrub, should_redact_for_llm, should_redact_for_logs,
}
use llmsentinel_router.Router.Decision.{Reason}
use llmsentinel_router.Router.Models.{Models}
use llmsentinel_router.Router.Calls.{Provider}

pub record Message : Type 0 where
  pub role : String
  pub content : String
  pub name : String

-- The fields of Router. The collector of metrics is left out: nothing reads it back.
pub record Router (F : Type 0) : Type 0 where
  pub settings : Settings F
  pub config : Option (SentinelConfig F)
  pub budget : Budget.Manager F
  pub threshold : Dynamic F
  pub cycles : Cycle.Registry
  pub cache : PersistentCache F
  pub limiter : Limiter F
  pub redactor : Engine
  -- the health and the bound on attempts of the registry of judges
  pub health : HealthTracker
  pub max_attempts : ℤ
  pub models : Models F

-- The router and the tables of its store.
pub record World (F : Type 0) : Type 0 where
  pub router : Router F
  pub db : Db F
  pub cache_store : Persistent.Store F
  pub logs : Logs F

-- The arguments of Route.
pub record Request : Type 0 where
  pub session_id : String
  pub client_ip : String
  pub tier : String
  pub prompt : String
  pub messages : List Message
  pub use_judge : Option Bool

-- What the request takes from libraries, providers and clocks. `judge_answer prompt n id key` is the
-- text that call number `n` of a judge gives; `first` and `second` are the calls of the first and of
-- the second callCandidates; `expired` is whether the context of the first has met its deadline. The
-- texts are those of fmt.Sprintf.
pub record Outside (F : Type 0) : Type 0 where
  pub strings : Strings
  pub regexps : Regexps
  pub digest : Digest
  pub readers : Readers F
  pub hash_payload : String → List Message → String
  pub hex : List ℕ → String
  pub session_id : String
  pub request_id : String
  pub judge_answer : String → ℕ → String → String → Option String
  pub first : Provider F
  pub second : Provider F
  pub expired : Bool
  pub conf_text : F → String
  pub reason_text : Reason F → String
  pub fallback_text : ℕ → String
  -- the time at the candidate number `i` of a call, and at the other readings of the clock
  pub first_clock : ℕ → ℕ
  pub second_clock : ℕ → ℕ
  pub created : ℕ
  pub looked_up : ℕ
  pub judged : ℕ
  pub answered : ℕ
  pub logged : ℕ
  pub request_latency : F
  pub model_latency : F

module _ {F : Type 0} where
  -- scrubMessages
  unfoldable pub scrub_messages : Outside F → Engine → List Message → List Message
  unfolding scrub
  scrub_messages out e [] = []
  scrub_messages out e (m ∷ ms) =
      (record m { content = (scrub out.strings out.regexps e m.content).text })
      ∷ scrub_messages out e ms

  unfoldable pub scrub_text : Outside F → Engine → String → String
  unfolding scrub
  scrub_text out e text = (scrub out.strings out.regexps e text).text

  -- The prompt and the messages that the models see, and that the cache is asked for.
  unfoldable pub shown : Outside F → Engine → Request → String × List Message
  unfolding scrub_text scrub_messages should_redact_for_llm
  shown out e rq =
      if should_redact_for_llm e
      then (scrub_text out e rq.prompt, scrub_messages out e rq.messages)
      else (rq.prompt, rq.messages)

  -- The prompt and the messages that the logs show, and that the cache records.
  unfoldable pub logged_as : Outside F → Engine → Request → String × List Message
  unfolding shown should_redact_for_logs
  logged_as out e rq =
      if should_redact_for_logs e && not (should_redact_for_llm e)
      then (scrub_text out e rq.prompt, scrub_messages out e rq.messages)
      else shown out e rq

  -- shortHash
  unfoldable pub short_hash : Outside F → String → String
  short_hash out value = out.hex (take 4 (out.digest.sum256 value))

  -- A step on the sessions table.
  unfoldable pub on_db : {A : Type 0} → Exec (Db F) A → Exec (World F) A
  on_db m w = let (r, db) = m w.db in (r, record w { db = db })

module _ {F : Type 0} ⦃fl : Float64 F⦄ where
  abbrev and_parse : Strings → Readers F → Option String → Option (Verdict F)
  and_parse st rd none = none
  and_parse st rd (some content) = parse st rd content

  -- callJudge of each judge for a prompt, with the heuristic on the prompt.
  unfoldable pub judges_for : Outside F → String → Judges F
  unfolding heuristic parse
  judges_for out prompt = record {
    call = λ n id key. and_parse out.strings out.readers (out.judge_answer prompt n id key);
    heuristic = heuristic out.strings out.readers prompt;
    fallback = out.fallback_text;
  }
