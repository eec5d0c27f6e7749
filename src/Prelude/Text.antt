-- ===== src/Prelude/Text.antt =====
-- Go's strings: byte lengths, slices, prefixes and concatenation are those of the native text. The
-- functions of the `strings` package that depend on Unicode tables are parameters.
use Prim.Native.Nat.{ℕ}
use Prim.Native.Char.{code}
use Prim.Native.String.{String, len, slice}
use Prim.Native.String
use mathlib.Core.Bool.{Bool, true, false}
use mathlib.Core.Option.{Option, none, some}
use mathlib.Core.List.{List, [], ◌∷◌}
use text.Mathlib.Text.{find?}
use llmsentinel_router.Prelude.Tests.{beq, if◌then◌else◌}

pub record Strings : Type 0 where
  -- strings.ToLower, ToUpper, TrimSpace and Fields
  pub to_lower : String → String
  pub to_upper : String → String
  pub trim_space : String → String
  pub fields : String → List String
  -- strings.Trim(s, cutset) and LastIndex(s, t)
  pub trim : String → String → String
  pub last_index : String → String → Option ℕ

-- Joined texts, `a + b`.
infixr 65 ◌<>◌
abbrev pub ◌<>◌ : String → String → String
a <> b = String.◌++◌ a b

-- strings.Contains
abbrev pub contains : String → String → Bool
contains s t = elim (find? s t) [ none ↦ false | some i ↦ true ]

-- The parts of strings.Split(s, sep) for a separator of one character, with the part so far.
unfoldable pub split_at : ℕ → String → String → List String
split_at sep part String.[] = part ∷ []
split_at sep part (String.◌∷◌ c s) =
    let ends = part ∷ split_at sep "" s in
    let goes_on = split_at sep (part <> String.◌∷◌ c String.[]) s in
    if beq (code c) sep then ends else goes_on

-- The first text that is not empty, or the empty one.
unfoldable pub first_non_empty : List String → String
first_non_empty [] = ""
first_non_empty (String.[] ∷ vs) = first_non_empty vs
first_non_empty (String.◌∷◌ c s ∷ vs) = String.◌∷◌ c s
