-- ===== src/Storage/State.antt =====
-- internal/storage/state.go: the app_state table, from keys to texts. JSON encoding and decoding are
-- parameters, and what becomes of the SQL statement is an argument.
use llmsentinel_router.Prelude.{
  ℕ, String, ◌==◌, ◌≡◌, refl, Option, none, some, if◌then◌else◌, arith,
}
use llmsentinel_router.Prelude.Map.{Map, lookup, insert, lookup-insert}
use llmsentinel_router.Exec.{DriverError}
use llmsentinel_router.Storage.Database.{Outcome, done, refused, lost}

-- `unmarshal dest raw` is what decoding a text into a value that is there makes of it.
pub record Json (A : Type 0) : Type 0 where
  pub marshal : A → Option String
  pub unmarshal : A → String → Option A

-- What LoadState gives: a value, no row, an error of the decoder, or one of the statement.
pub data Loaded (A : Type 0) : Type 0 where
  found : A → Loaded A
  missing undecodable : Loaded A
  unread : DriverError → Loaded A

-- What SaveState gives: no error, an error of the encoder, or one of the statement.
pub data Saved : Type 0 where
  saved unencodable : Saved
  unsaved : DriverError → Saved

module _ {A : Type 0} where
  abbrev decoded : Option A → Loaded A
  decoded none = undecodable
  decoded (some a) = found a

  unfoldable pub load_state : Json A → String → A → Outcome → Map (String × ℕ) → Loaded A
  load_state j key dest outcome t = elim outcome [
    | done ↦ elim (lookup key t) [ none ↦ missing | some row ↦ decoded (j.unmarshal dest row.0) ]
    | refused e ↦ unread e
    | lost e ↦ unread e
  ]

  -- INSERT ... ON CONFLICT(key) DO UPDATE: the row is replaced. A value that does not encode is an
  -- error and writes nothing; a statement whose result is lost has written the row.
  unfoldable pub save_state :
      Json A → String → A → ℕ → Outcome → Map (String × ℕ) → Saved × Map (String × ℕ)
  save_state j key value now outcome t = elim (j.marshal value) [
    | none ↦ (unencodable, t)
    | some raw ↦ elim outcome [
      | done ↦ (saved, insert key (raw, now) t)
      | refused e ↦ (unsaved e, t)
      | lost e ↦ (unsaved e, insert key (raw, now) t)
    ]
  ]

  -- Where SaveState reports no error, a later LoadState that runs decodes what was encoded, and other
  -- keys keep their values.
  pub load_state-save_state :
      (j : Json A) (key other : String) (value dest : A) (now : ℕ) (outcome : Outcome)
      (t : Map (String × ℕ))
      → (save_state j key value now outcome t).0 ≡ saved
      → (raw : String) × (j.marshal value ≡ some raw)
        × (load_state j other dest done (save_state j key value now outcome t).1 ≡ (
            if key == other
            then decoded (j.unmarshal dest raw)
            else load_state j other dest done t))
  unfolding load_state save_state
  load_state-save_state j key other value dest now outcome t = by (j.marshal value) outcome
    where
      by :
          (m : Option String) (x : Outcome)
          → (let s : Saved × Map (String × ℕ) = elim m [
            | none ↦ (unencodable, t)
            | some raw ↦ elim x [
              | done ↦ (saved, insert key (raw, now) t)
              | refused e ↦ (unsaved e, t)
              | lost e ↦ (unsaved e, insert key (raw, now) t)
            ]
          ] in
              s.0 ≡ saved
              → (raw : String) × (m ≡ some raw)
                × (load_state j other dest done s.1 ≡ (
                    if key == other
                    then decoded (j.unmarshal dest raw)
                    else load_state j other dest done t)))
      by none x h = absurd (cc h)
      by (some raw) done h = (raw, refl, ground (arith, lookup-insert key other (raw, now) t))
      by (some raw) (refused e) h = absurd (cc h)
      by (some raw) (lost e) h = absurd (cc h)
