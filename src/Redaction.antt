-- ===== src/Redaction.antt =====
-- internal/redaction/redaction.go: the engine that masks secrets. `regexp` and HMAC-SHA-256 are
-- parameters; a pattern keeps the text of its regular expression.
pub mod Scrubbing
use Prim.Native.String.{len, slice}
use llmsentinel_router.Prelude.{
  ℕ, ◌-◌, String, ◌==◌, Bool, true, false, not, ◌&&◌, ◌||◌, List, [], ◌∷◌, ◌++◌, if◌then◌else◌, leb,
  ltb,
}
use llmsentinel_router.Prelude.Text.{Strings, ◌<>◌}

pub data Mode : Type 0 where
  mode_none mode_logs mode_strict : Mode

-- Result of the package.
pub record Scrubbed : Type 0 where
  pub text : String
  pub has_sensitive_data : Bool
  pub patterns_triggered : List String

pub record Pattern : Type 0 where
  pub name : String
  pub category : String
  pub re : String

pub record Engine : Type 0 where
  pub mode : Mode
  pub strategy : String
  pub salt : String
  pub categories : List String
  pub patterns : List Pattern

-- MatchString and ReplaceAllStringFunc of the expression with a text, and the MAC of a value under a
-- salt in hexadecimal digits. `cut s i j` is Go's s[i:j], of bytes, which may begin or end within a
-- character; such a text is none of the native texts, on which the length is that in bytes.
pub record Regexps : Type 0 where
  pub match_string : String → String → Bool
  pub replace_all : String → (String → String) → String → String
  pub hmac_hex : String → String → String
  pub cut : String → ℕ → ℕ → String

abbrev patterns : List Pattern
patterns =
    record { name = "AWS Access Key"; category = "aws"; re = "\\bAKIA[0-9A-Z]{16}\\b" }
    ∷ record { name = "OpenAI API Key"; category = "api_key"; re = "\\bsk-[A-Za-z0-9_\\-]{16,}\\b" }
    ∷ record { name = "Groq API Key"; category = "api_key"; re = "\\bgsk_[A-Za-z0-9_\\-]{16,}\\b" }
    ∷ record { name = "GitHub Token"; category = "token"; re = "\\bgh[pousr]_[A-Za-z0-9_]{20,}\\b" }
    ∷ record { name = "GCP API Key"; category = "api_key"; re = "\\bAIza[0-9A-Za-z_\\-]{20,}\\b" }
    ∷ record { name = "Credit Card"; category = "pii"; re = "\\b(?:\\d[ -]*?){13,19}\\b" }
    ∷ record { name = "SSN"; category = "pii"; re = "\\b\\d{3}-\\d{2}-\\d{4}\\b" }
    ∷ record {
      name = "Database URL";
      category = "connection";
      re = "(?i)\\b(?:postgres|postgresql|mysql)://[^\\s]+";
    }
    ∷ []

unfoldable pub mode_of : String → Mode
mode_of m = if m == "none" then mode_none else if m == "strict" then mode_strict else mode_logs

unfoldable pub category_set : Strings → List String → List String
category_set st [] = []
category_set st (c ∷ cs) = st.to_lower (st.trim_space c) ∷ category_set st cs

unfoldable pub new_engine : Strings → String → String → String → List String → Engine
unfolding mode_of category_set
new_engine st mode strategy salt categories = record {
  mode = mode_of (st.to_lower mode);
  strategy = st.to_lower strategy;
  salt = salt;
  categories = category_set st categories;
  patterns = patterns;
}

unfoldable pub is_member : String → List String → Bool
is_member c [] = false
is_member c (x ∷ xs) = x == c || is_member c xs

-- Whether Scrub goes on to a pattern: all of them with no category set.
unfoldable pub in_categories : List String → String → Bool
unfolding is_member
in_categories [] category = true
in_categories (x ∷ xs) category = is_member category (x ∷ xs)

unfoldable pub mask : Regexps → Engine → String → String → String
mask rx e value name =
    if e.strategy == "hmac"
    then "[REDACTED:" <> name <> ":" <> slice (rx.hmac_hex e.salt value) 0 12 <> "]"
    else if leb (len value) 8
    then "[REDACTED:" <> name <> "]"
    else rx.cut value 0 4 <> "..." <> rx.cut value (len value - 4) (len value)

-- One pattern of the loop.
unfoldable pub scrub_with : Strings → Regexps → Engine → Pattern → Scrubbed → Scrubbed
unfolding in_categories mask
scrub_with st rx e p r =
    if not (in_categories e.categories (st.to_lower p.category))
    then r
    else if not (rx.match_string p.re r.text)
    then r
    else record {
      text = rx.replace_all p.re (λ value. mask rx e value p.name) r.text;
      has_sensitive_data = true;
      patterns_triggered = r.patterns_triggered ++ p.name ∷ [];
    }

unfoldable pub scrub_all : Strings → Regexps → Engine → List Pattern → Scrubbed → Scrubbed
unfolding scrub_with
scrub_all st rx e [] r = r
scrub_all st rx e (p ∷ ps) r = scrub_all st rx e ps (scrub_with st rx e p r)

unfoldable pub scrub : Strings → Regexps → Engine → String → Scrubbed
unfolding scrub_all
scrub st rx e text =
    scrub_all st rx e e.patterns
      (record { text = text; has_sensitive_data = false; patterns_triggered = [] })

unfoldable pub should_redact_for_llm : Engine → Bool
should_redact_for_llm e = elim e.mode [ mode_strict ↦ true | _ ↦ false ]

unfoldable pub should_redact_for_logs : Engine → Bool
should_redact_for_logs e = elim e.mode [ mode_none ↦ false | _ ↦ true ]
