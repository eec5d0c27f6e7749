-- ===== src/Provider/Stream.antt =====
-- chatOpenAICompatibleStream of internal/provider/client.go, from the lines of the answer on. The
-- handler says of each chunk whether it goes on, by the chunks that it has had; `decode` is the JSON
-- decoder.
use Prim.Native.String.{String, len, slice}
use text.Mathlib.Text.{starts_with}
use llmsentinel_router.Prelude.{
  ◌==◌, Bool, true, false, not, ◌||◌, Option, none, some, List, [], ◌∷◌, ◌++◌, if◌then◌else◌,
}
use llmsentinel_router.Prelude.Int.{pos, beq_ℤ, add64}
use llmsentinel_router.Prelude.Float.{Float64}
use llmsentinel_router.Prelude.Text.{Strings, ◌<>◌}
use llmsentinel_router.Exec.{call_failed, Result, ok, err}
use llmsentinel_router.Provider.{Usage, Response, HttpClient, cost}

pub record StreamChunk : Type 0 where
  pub content : String
  pub done : Bool
  pub usage : Option Usage

-- What a line decodes to: content and reasoning content of its choices, and the usage.
pub record Decoded : Type 0 where
  pub choices : List (String × String)
  pub usage : Option Usage

-- What the loop makes of a line: it goes on, it ends, or there may be content.
pub data Line : Type 0 where
  skipped ended : Line
  carries : Option Usage → String → Line

unfoldable pub content_of : List (String × String) → String
content_of [] = ""
content_of ((content, reasoning) ∷ cs) = if content == "" then reasoning else content

abbrev line_of : Option Decoded → Line
line_of none = skipped
line_of (some d) = carries d.usage (content_of d.choices)

unfoldable pub read_line : Strings → (String → Option Decoded) → String → Line
unfolding content_of
read_line st decode text =
    let line = st.trim_space text in
    let payload = st.trim_space (slice line 5 (len line)) in
    if line == "" || not (starts_with line "data:")
    then skipped
    else if payload == "[DONE]"
    then ended
    else line_of (decode payload)

abbrev pub or_usage : Option Usage → Usage → Usage
or_usage none u = u
or_usage (some v) u = v

abbrev pub plain : String → StreamChunk
plain content = record { content = content; done = false; usage = none }

-- The loop over the lines: the text and the usage so far, and the chunks that the handler has had.
unfoldable pub scan :
    (List StreamChunk → StreamChunk → Bool)
    → List Line
    → String
    → Usage
    → List StreamChunk
    → Result (String × Usage) × List StreamChunk
scan goes_on [] text usage sent = (ok (text, usage), sent)
scan goes_on (skipped ∷ ls) text usage sent = scan goes_on ls text usage sent
scan goes_on (ended ∷ ls) text usage sent = (ok (text, usage), sent)
scan goes_on (carries u content ∷ ls) text usage sent =
    let silent = scan goes_on ls text (or_usage u usage) sent in
    let spoken =
      scan goes_on ls (text <> content) (or_usage u usage) (sent ++ plain content ∷ []) in
    if content == ""
    then silent
    else if goes_on sent (plain content)
    then spoken
    else (err call_failed, sent ++ plain content ∷ [])

unfoldable pub with_total : Usage → Usage
with_total u =
    if beq_ℤ u.total_tokens (pos 0)
    then record u { total_tokens = add64 u.prompt_tokens u.completion_tokens }
    else u

abbrev pub last_chunk : Usage → StreamChunk
last_chunk u = record { content = ""; done = true; usage = some u }

unfoldable pub lines_of : Strings → (String → Option Decoded) → List String → List Line
unfolding read_line
lines_of st decode [] = []
lines_of st decode (t ∷ ts) = read_line st decode t ∷ lines_of st decode ts

abbrev pub no_usage : Usage
no_usage = record { prompt_tokens = pos 0; completion_tokens = pos 0; total_tokens = pos 0 }

module _ {F : Type 0} ⦃fl : Float64 F⦄ where
  -- After the loop; `broken` is whether the scanner has met an error.
  unfoldable pub close :
      HttpClient F
      → (List StreamChunk → StreamChunk → Bool)
      → Bool
      → Result (String × Usage) × List StreamChunk
      → Result (Response F) × List StreamChunk
  unfolding with_total cost
  close c goes_on broken (err e, sent) = (err e, sent)
  close c goes_on broken (ok (text, u), sent) =
      let usage = with_total u in
      let reply : Response F = record {
        content = text;
        model = c.model_id;
        usage = usage;
        cost = cost c usage.prompt_tokens usage.completion_tokens;
      } in
      if broken then (err call_failed, sent) else (
        if goes_on sent (last_chunk usage) then ok reply else err call_failed,
        sent ++ last_chunk usage ∷ [],
      )

  unfoldable pub chat_stream :
      Strings
      → (String → Option Decoded)
      → HttpClient F
      → (List StreamChunk → StreamChunk → Bool)
      → Bool
      → List String
      → Result (Response F) × List StreamChunk
  unfolding close scan lines_of
  chat_stream st decode c goes_on broken lines =
      close c goes_on broken (scan goes_on (lines_of st decode lines) "" no_usage [])
