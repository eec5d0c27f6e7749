-- ===== src/Provider/Chunks.antt =====
-- What the handler of a stream has had when there is a reply.
use Prim.Native.String.{String}
use text.Mathlib.TextLemmas as Texts
use llmsentinel_router.Prelude.{
  ◌==◌, ◌≡◌, refl, ap, sym, ◌∙◌, subst, Bool, true, false, Option, List, [], ◌∷◌, ◌++◌,
  if◌then◌else◌, arith, Bool-cases, inl, inr,
}
use llmsentinel_router.Prelude.Float.{Float64}
use llmsentinel_router.Prelude.Text.{Strings, ◌<>◌}
use llmsentinel_router.Exec.{call_failed, Result, ok, err, ok_injective}
use llmsentinel_router.Provider.{Usage, Response, HttpClient, cost}
use llmsentinel_router.Provider.Stream.{
  StreamChunk, Decoded, Line, skipped, ended, carries, or_usage, plain, scan, with_total,
  last_chunk, lines_of, no_usage, close, chat_stream,
}

-- The texts of chunks, one after the other.
abbrev pub joined : List StreamChunk → String
joined [] = ""
joined (c ∷ cs) = c.content <> joined cs

-- No chunk is the last one.
abbrev pub AllPlain : List StreamChunk → Type 0
AllPlain [] = Unit
AllPlain (c ∷ cs) = (c.done ≡ false) × AllPlain cs

joined-append :
    (cs : List StreamChunk) (c : StreamChunk) → joined (cs ++ c ∷ []) ≡ joined cs <> c.content
joined-append [] c = Texts.append-nil c.content ∙ sym (Texts.nil-append c.content)
joined-append (x ∷ cs) c =
    ap (λ t. x.content <> t) (joined-append cs c)
    ∙ sym (Texts.append_assoc x.content (joined cs) c.content)

AllPlain-append :
    (cs : List StreamChunk) (c : StreamChunk)
    → AllPlain cs
    → c.done ≡ false
    → AllPlain (cs ++ c ∷ [])
AllPlain-append [] c h k = (k, tt)
AllPlain-append (x ∷ cs) c h k = (h.0, AllPlain-append cs c h.1 k)

-- Chunks that are not the last one, with a text that is theirs.
record IsSpoken (text : String) (sent : List StreamChunk) : Type 0 where
  whole : joined sent ≡ text
  all_plain : AllPlain sent

IsSpoken-append :
    (text content : String) (sent : List StreamChunk)
    → IsSpoken text sent
    → IsSpoken (text <> content) (sent ++ plain content ∷ [])
IsSpoken-append text content sent h = record {
  whole = joined-append sent (plain content) ∙ ap (λ t. t <> content) h.whole;
  all_plain = AllPlain-append sent (plain content) h.all_plain refl;
}

scan-IsSpoken :
    (goes_on : List StreamChunk → StreamChunk → Bool) (ls : List Line) (text : String) (u : Usage)
    (sent : List StreamChunk) (text' : String) (u' : Usage) (sent' : List StreamChunk)
    → IsSpoken text sent
    → scan goes_on ls text u sent ≡ (ok (text', u'), sent')
    → IsSpoken text' sent'
unfolding scan
scan-IsSpoken goes_on [] text u sent text' u' sent' s h =
    subst (λ (t, cs). IsSpoken t cs)
      (ap (λ t. (t, sent)) (ap (λ p. p.0) (ok_injective (ap (λ x. x.0) h)))
        ∙ ap (λ x. (text', x.1)) h)
      s
scan-IsSpoken goes_on (skipped ∷ ls) text u sent text' u' sent' s h =
    scan-IsSpoken goes_on ls text u sent text' u' sent' s h
scan-IsSpoken goes_on (ended ∷ ls) text u sent text' u' sent' s h =
    subst (λ (t, cs). IsSpoken t cs)
      (ap (λ t. (t, sent)) (ap (λ p. p.0) (ok_injective (ap (λ x. x.0) h)))
        ∙ ap (λ x. (text', x.1)) h)
      s
scan-IsSpoken goes_on (carries v content ∷ ls) text u sent text' u' sent' s h =
    elim (Bool-cases (content == "")) [
      | inl e ↦
          scan-IsSpoken goes_on ls text (or_usage v u) sent text' u' sent' s (ground (arith, e, h))
      | inr e ↦ elim (Bool-cases (goes_on sent (plain content))) [
        | inl k ↦
            scan-IsSpoken goes_on ls (text <> content) (or_usage v u) (sent ++ plain content ∷ [])
              text' u' sent' (IsSpoken-append text content sent s) (ground (arith, e, k, h))
        | inr k ↦ absurd (ground (arith, e, k, h))
      ]
    ]

module _ {F : Type 0} ⦃fl : Float64 F⦄ where
  -- The chunks of a stream that gives a reply: plain ones, and then the last one with the usage of the
  -- reply; the text of the reply is that of the plain ones.
  pub record IsStreamed (c : HttpClient F) (r : Response F) (sent : List StreamChunk) : Type 0 where
    pub chunks : List StreamChunk
    pub all_sent : sent ≡ chunks ++ last_chunk r.usage ∷ []
    pub all_plain : AllPlain chunks
    pub whole : r.content ≡ joined chunks
    pub priced : r.cost ≡ cost c r.usage.prompt_tokens r.usage.completion_tokens

  close-IsStreamed :
      (c : HttpClient F) (goes_on : List StreamChunk → StreamChunk → Bool) (broken : Bool)
      (x : Result (String × Usage) × List StreamChunk) (r : Response F) (sent : List StreamChunk)
      → ((text : String) (u : Usage) → x.0 ≡ ok (text, u) → IsSpoken text x.1)
      → close c goes_on broken x ≡ (ok r, sent)
      → IsStreamed c r sent
  unfolding close
  close-IsStreamed c goes_on broken (err e, cs) r sent s h = absurd (cc (ap (λ x. x.0) h))
  close-IsStreamed c goes_on true (ok (text, u), cs) r sent s h = absurd (cc (ap (λ x. x.0) h))
  close-IsStreamed c goes_on false (ok (text, u), cs) r sent s h =
      of_test (goes_on cs (last_chunk (with_total u))) (ap (λ x. x.0) h) (ap (λ x. x.1) h)
    where
      reply : Response F
      reply = record {
        content = text;
        model = c.model_id;
        usage = with_total u;
        cost = cost c (with_total u).prompt_tokens (with_total u).completion_tokens;
      }

      of_test :
          (b : Bool)
          → (if b then ok reply else err call_failed) ≡ ok r
          → cs ++ last_chunk (with_total u) ∷ [] ≡ sent
          → IsStreamed c r sent
      of_test false a b = absurd (cc a)
      of_test true a b =
          subst (λ (r, sent). IsStreamed c r sent)
            (ap (λ r. (r, cs ++ last_chunk (with_total u) ∷ [])) (ok_injective a)
              ∙ ap (λ t. (r, t)) b)
            (record {
              chunks = cs;
              all_sent = refl;
              all_plain = (s text u refl).all_plain;
              whole = sym (s text u refl).whole;
              priced = refl;
            })

  -- Where a stream gives a reply, the handler has had its text in plain chunks, in order and whole, and
  -- then one last chunk with the usage of the reply; and the cost is that of the usage.
  pub chat_stream-IsStreamed :
      (st : Strings) (decode : String → Option Decoded) (c : HttpClient F)
      (goes_on : List StreamChunk → StreamChunk → Bool) (broken : Bool) (lines : List String)
      (r : Response F) (sent : List StreamChunk)
      → chat_stream st decode c goes_on broken lines ≡ (ok r, sent)
      → IsStreamed c r sent
  unfolding chat_stream
  chat_stream-IsStreamed st decode c goes_on broken lines r sent =
      let x = scan goes_on (lines_of st decode lines) "" no_usage [] in
      close-IsStreamed c goes_on broken x r sent λ text u e.
        scan-IsSpoken goes_on (lines_of st decode lines) "" no_usage [] text u x.1
          (record { whole = refl; all_plain = tt }) (ap (λ y. (y, x.1)) e)
