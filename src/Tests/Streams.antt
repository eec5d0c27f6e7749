-- ===== src/Tests/Streams.antt =====
-- The attempts of a request and a stream at concrete inputs.
use llmsentinel_router.Prelude.{
  ℕ, String, List, ◌≡◌, refl, true, false, none, some, Option, ◌↔◌, beq, [], ◌∷◌, if◌then◌else◌,
}
use llmsentinel_router.Prelude.Int.{ℤ, pos, add64}
use llmsentinel_router.Prelude.Fixed.{fixed}
use llmsentinel_router.Exec.{ok}
use llmsentinel_router.Provider.{Usage, Response, HttpClient}
use llmsentinel_router.Provider.Post.{
  Attempt, replied, post_json, max_retries, IsPosted, post_json-IsPosted,
}
use llmsentinel_router.Provider.Stream.{StreamChunk, Decoded, plain, last_chunk, chat_stream}
use llmsentinel_router.Provider.Chunks.{IsStreamed, chat_stream-IsStreamed}
use llmsentinel_router.Tests.Requests.{strings}

-- The first attempt meets a busy server, the second one succeeds.
abbrev second_time : ℕ → Attempt
second_time n = if beq n 0 then replied 503 "busy" else replied 200 "{}"

posted : post_json "deepseek" second_time ≡ (ok "{}", 1 ∷ [])
unfolding post_json
posted = refl

post_json-IsPosted_example :
    ((post_json "deepseek" second_time).0 ≡ ok "{}")
    ↔ ((k : ℕ) × IsPosted "deepseek" second_time (max_retries "deepseek") 0 "{}" k)
post_json-IsPosted_example = post_json-IsPosted "deepseek" second_time "{}"

abbrev client : HttpClient ℤ
client = record {
  provider = "deepseek";
  model_id = "base";
  price_in_per_m = pos 1_000_000;
  price_out_per_m = pos 2_000_000;
}

abbrev two_words : String → Option Decoded
two_words s = some (record { choices = (s, "") ∷ []; usage = none })

abbrev no_tokens : Usage
no_tokens = record { prompt_tokens = pos 0; completion_tokens = pos 0; total_tokens = pos 0 }

abbrev streamed : Response ℤ
streamed = record { content = "ab"; model = "base"; usage = no_tokens; cost = pos 0 }

abbrev heard : List StreamChunk
heard = plain "a" ∷ plain "b" ∷ last_chunk no_tokens ∷ []

stream_runs :
    chat_stream strings two_words client
      (λ sent c. true)
      false
      ("data:a" ∷ "" ∷ "data:b" ∷ "data:[DONE]" ∷ [])
    ≡ (ok streamed, heard)
unfolding chat_stream add64
stream_runs = refl

chat_stream-IsStreamed_example : IsStreamed client streamed heard
chat_stream-IsStreamed_example =
    chat_stream-IsStreamed strings two_words client (λ sent c. true) false
      ("data:a" ∷ "" ∷ "data:b" ∷ "data:[DONE]" ∷ []) streamed heard stream_runs
