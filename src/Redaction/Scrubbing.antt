-- ===== src/Redaction/Scrubbing.antt =====
-- What Scrub changes, and what mask leaves to be read.
use Prim.Native.String.{len, slice}
use text.Mathlib.TextPositions.{len-append, slice-append_left, slice-append_right}
use text.Mathlib.TextLemmas as Texts
use llmsentinel_router.Prelude.{
  ℕ, ◌+◌, ◌-◌, ◌<◌, String, ◌==◌, ◌≡◌, refl, sym, ap, ◌∙◌, subst, Bool, true, false, List, [], ◌∷◌,
  ◌++◌, if◌then◌else◌, arith, Bool-cases, inl, inr, leb,
}
use llmsentinel_router.Prelude.Text.{Strings, ◌<>◌}
use llmsentinel_router.Redaction.{
  Scrubbed, Pattern, Engine, Regexps, in_categories, mask, scrub_with, scrub_all, scrub,
}

-- The pattern fires where the loop comes to it with a text.
abbrev pub fires : Strings → Regexps → Engine → Pattern → String → Bool
fires st rx e p text =
    if in_categories e.categories (st.to_lower p.category) then rx.match_string p.re text else false

-- A list of patterns of which one fires on a text.
abbrev pub any_fires : Strings → Regexps → Engine → List Pattern → String → Bool
any_fires st rx e [] text = false
any_fires st rx e (p ∷ ps) text = if fires st rx e p text then true else any_fires st rx e ps text

-- What a result says of the text that it comes from.
pub record IsHonest (text : String) (r : Scrubbed) : Type 0 where
  pub unchanged : r.has_sensitive_data ≡ false → r.text ≡ text
  pub silent : r.has_sensitive_data ≡ false → r.patterns_triggered ≡ []
  pub named : r.has_sensitive_data ≡ true → ¬ (r.patterns_triggered ≡ [])

append-ne_nil : (xs : List String) (x : String) → ¬ (xs ++ x ∷ [] ≡ [])
append-ne_nil [] x h = ground arith
append-ne_nil (y ∷ ys) x h = ground arith

scrub_with-miss :
    (st : Strings) (rx : Regexps) (e : Engine) (p : Pattern) (r : Scrubbed)
    → fires st rx e p r.text ≡ false
    → scrub_with st rx e p r ≡ r
unfolding scrub_with
scrub_with-miss st rx e p r h = ground arith

scrub_with-hit :
    (st : Strings) (rx : Regexps) (e : Engine) (p : Pattern) (r : Scrubbed)
    → fires st rx e p r.text ≡ true
    → ((scrub_with st rx e p r).has_sensitive_data ≡ true)
      × ((scrub_with st rx e p r).patterns_triggered ≡ r.patterns_triggered ++ p.name ∷ [])
unfolding scrub_with
scrub_with-hit st rx e p r h = (ground arith, ground arith)

scrub_with-IsHonest :
    (st : Strings) (rx : Regexps) (e : Engine) (p : Pattern) (text : String) (r : Scrubbed)
    → IsHonest text r
    → IsHonest text (scrub_with st rx e p r)
scrub_with-IsHonest st rx e p text r h = elim (Bool-cases (fires st rx e p r.text)) [
  | inr miss ↦ subst (IsHonest text) (sym (scrub_with-miss st rx e p r miss)) h
  | inl hit ↦
      let (reported, names) = scrub_with-hit st rx e p r hit in
      record {
        unchanged = λ k. absurd (cc (reported, k));
        silent = λ k. absurd (cc (reported, k));
        named = λ k empty. append-ne_nil r.patterns_triggered p.name (sym names ∙ empty);
      }
]

scrub_all-IsHonest :
    (st : Strings) (rx : Regexps) (e : Engine) (ps : List Pattern) (text : String) (r : Scrubbed)
    → IsHonest text r
    → IsHonest text (scrub_all st rx e ps r)
unfolding scrub_all
scrub_all-IsHonest st rx e [] text r h = h
scrub_all-IsHonest st rx e (p ∷ ps) text r h =
    scrub_all-IsHonest st rx e ps text (scrub_with st rx e p r)
      (scrub_with-IsHonest st rx e p text r h)

-- A report is never taken back.
scrub_all-reported :
    (st : Strings) (rx : Regexps) (e : Engine) (ps : List Pattern) (r : Scrubbed)
    → r.has_sensitive_data ≡ true
    → (scrub_all st rx e ps r).has_sensitive_data ≡ true
unfolding scrub_all
scrub_all-reported st rx e [] r h = h
scrub_all-reported st rx e (p ∷ ps) r h =
    scrub_all-reported st rx e ps (scrub_with st rx e p r)
      (elim (Bool-cases (fires st rx e p r.text)) [
        | inl hit ↦ (scrub_with-hit st rx e p r hit).0
        | inr miss ↦ ap (λ q. q.has_sensitive_data) (scrub_with-miss st rx e p r miss) ∙ h
      ])

scrub_all-any_fires :
    (st : Strings) (rx : Regexps) (e : Engine) (ps : List Pattern) (r : Scrubbed)
    → r.has_sensitive_data ≡ false
    → (scrub_all st rx e ps r).has_sensitive_data ≡ any_fires st rx e ps r.text
unfolding scrub_all
scrub_all-any_fires st rx e [] r h = h
scrub_all-any_fires st rx e (p ∷ ps) r h = elim (Bool-cases (fires st rx e p r.text)) [
  | inl hit ↦
      scrub_all-reported st rx e ps (scrub_with st rx e p r) (scrub_with-hit st rx e p r hit).0
      ∙ sym (ground (arith, hit))
  | inr miss ↦
      ap (λ q. (scrub_all st rx e ps q).has_sensitive_data) (scrub_with-miss st rx e p r miss)
      ∙ scrub_all-any_fires st rx e ps r h
      ∙ sym (ground (arith, miss))
]

-- Scrub reports sensitive data just where a pattern of an enabled category matches the text. Where it
-- reports none the text is unchanged and no pattern is named; where it does some pattern is named.
pub scrub-IsHonest :
    (st : Strings) (rx : Regexps) (e : Engine) (text : String)
    → ((scrub st rx e text).has_sensitive_data ≡ any_fires st rx e e.patterns text)
      × IsHonest text (scrub st rx e text)
unfolding scrub
scrub-IsHonest st rx e text =
    let r : Scrubbed = record {
      text = text;
      has_sensitive_data = false;
      patterns_triggered = [];
    } in
    (
      scrub_all-any_fires st rx e e.patterns r refl,
      scrub_all-IsHonest st rx e e.patterns text r
          (record { unchanged = λ k. refl; silent = λ k. refl; named = λ k. absurd (cc k) }),
    )

-- With any strategy but "hmac" a value of more than eight bytes that has its first four and its last four
-- bytes in characters of their own keeps those and no others.
pub mask_keeps_ends :
    (rx : Regexps) (e : Engine) (first middle last name : String)
    → ((s : String) (i j : ℕ) → len (slice s i j) ≡ j - i → rx.cut s i j ≡ slice s i j)
    → (e.strategy == "hmac") ≡ false
    → len first ≡ 4
    → len last ≡ 4
    → 0 < len middle
    → mask rx e (first <> middle <> last) name ≡ first <> "..." <> last
unfolding mask
mask_keeps_ends rx e first middle last name whole_characters simple a b c =
    let whole : String = first <> middle <> last in
    let size : len whole ≡ 4 + len middle + 4 =
      omega (arith, len-append first (middle <> last), len-append middle last) in
    let front : slice whole 0 4 ≡ first =
      subst (λ n. slice whole 0 n ≡ first) a (slice-append_left first (middle <> last)) in
    let low : len (first <> middle) ≡ len whole - 4 =
      omega (arith, size, len-append first middle) in
    let high : len (first <> middle) + len last ≡ len whole =
      omega (arith, size, len-append first middle) in
    let back : slice whole (len whole - 4) (len whole) ≡ last =
      subst (λ n. slice whole (len whole - 4) n ≡ last) high
        (subst (λ n. slice whole n (len (first <> middle) + len last) ≡ last) low
          (subst (λ t. slice t (len (first <> middle)) (len (first <> middle) + len last) ≡ last)
            (Texts.append_assoc first middle last) (slice-append_right (first <> middle) last))) in
    let long : leb (len whole) 8 ≡ false = ground (arith, size, c) in
    let front_cut : rx.cut whole 0 4 ≡ first =
      whole_characters whole 0 4 (ap len front ∙ a) ∙ front in
    let back_cut : rx.cut whole (len whole - 4) (len whole) ≡ last =
      whole_characters whole (len whole - 4) (len whole) (ap len back ∙ b ∙ omega (arith, size))
      ∙ back in
    rw (simple, long, front_cut, back_cut) refl
