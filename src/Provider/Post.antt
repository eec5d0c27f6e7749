-- ===== src/Provider/Post.antt =====
-- postJSON of internal/provider/client.go, from the encoded body on: the attempts, and the pauses
-- between them in seconds.
use llmsentinel_router.Prelude.{
  ℕ, zero, suc, ◌+◌, ◌^◌, ◌<◌, String, ◌==◌, ◌≡◌, refl, ap, sym, ◌↔◌, ◌∙◌, subst, Bool, true, false,
  not, ◌&&◌, ◌||◌, Option, none, some, List, [], ◌∷◌, if◌then◌else◌, arith, ltb, leb, beq,
  Bool-cases, ◌⊎◌, inl, inr,
}
use llmsentinel_router.Exec.{call_failed, Result, ok, err, ok_injective}

-- One attempt: no response, with the context cancelled or not; a response whose body cannot be read;
-- or a status and a body.
pub data Attempt : Type 0 where
  unsent : Bool → Attempt
  unreadable : Attempt
  replied : ℕ → String → Attempt

abbrev pub is_success : ℕ → Bool
is_success status = leb 200 status && ltb status 300

abbrev pub is_busy : ℕ → Bool
is_busy status = beq status 429 || beq status 503

-- The attempts that are left from number `n` on; `send n` is what becomes of it.
unfoldable pub post_from : String → (ℕ → Attempt) → ℕ → ℕ → Result String × List ℕ
post_from provider send zero n = (err call_failed, [])
post_from provider send (suc left) n =
    let rest = post_from provider send left (suc n) in
    elim (send n) [
      | unsent cancelled ↦ if cancelled then (err call_failed, []) else (rest.0, suc n ∷ rest.1)
      | unreadable ↦ (err call_failed, [])
      | replied status body ↦
          if is_success status
          then (ok body, [])
          else if is_busy status
          then (if provider == "groq" then (err call_failed, []) else (rest.0, 2 ^ n ∷ rest.1))
          else (err call_failed, [])
    ]

-- NewHTTPClient gives three attempts, and one to groq.
unfoldable pub max_retries : String → ℕ
max_retries provider = if provider == "groq" then 1 else 3

unfoldable pub post_json : String → (ℕ → Attempt) → Result String × List ℕ
unfolding post_from max_retries
post_json provider send = post_from provider send (max_retries provider) 0

-- The body of an attempt that succeeds.
abbrev pub body_of : Attempt → Option String
body_of (unsent cancelled) = none
body_of unreadable = none
body_of (replied status body) = if is_success status then some body else none

-- An attempt after which there is another: it was not sent, and the context goes on; or the server was
-- busy, and is not groq.
abbrev pub is_retried : String → Attempt → Bool
is_retried provider (unsent cancelled) = not cancelled
is_retried provider unreadable = false
is_retried provider (replied status body) =
    not (is_success status) && is_busy status && not (provider == "groq")

-- The attempt number `n + k` succeeds with the body, after `k` attempts that are followed by another.
pub record IsPosted (provider : String) (send : ℕ → Attempt) (left n : ℕ) (body : String) (k : ℕ)
    : Type 0 where
  pub in_time : k < left
  pub sent : body_of (send (n + k)) ≡ some body
  pub retried : (j : ℕ) → j < k → is_retried provider (send (n + j)) ≡ true

post_from_cases :
    (provider : String) (send : ℕ → Attempt) (left n : ℕ) (a : Attempt)
    → send n ≡ a
    → ((body : String) × (body_of a ≡ some body)
        × ((post_from provider send (suc left) n).0 ≡ ok body))
      ⊎ (((is_retried provider a ≡ true)
            × ((post_from provider send (suc left) n).0 ≡ (post_from provider send left (suc n)).0))
          ⊎ ((post_from provider send (suc left) n).0 ≡ err call_failed))
unfolding post_from
post_from_cases provider send left n (unsent true) e = inr (inr (ground (arith, e)))
post_from_cases provider send left n (unsent false) e = inr (inl (refl, ground (arith, e)))
post_from_cases provider send left n unreadable e = inr (inr (ground (arith, e)))
post_from_cases provider send left n (replied status body) e =
    elim (Bool-cases (is_success status)) [
      | inl good ↦ inl (body, ground (arith, good), ground (arith, e, good))
      | inr bad ↦ elim (Bool-cases (is_busy status)) [
        | inr other ↦ inr (inr (ground (arith, e, bad, other)))
        | inl busy ↦ elim (Bool-cases (provider == "groq")) [
          | inl groq ↦ inr (inr (ground (arith, e, bad, busy, groq)))
          | inr fine ↦
              inr (inl (ground (arith, bad, busy, fine), ground (arith, e, bad, busy, fine)))
        ]
      ]
    ]

post_from_success :
    (provider : String) (send : ℕ → Attempt) (left n : ℕ) (a : Attempt) (body : String)
    → send n ≡ a
    → body_of a ≡ some body
    → (post_from provider send (suc left) n).0 ≡ ok body
unfolding post_from
post_from_success provider send left n (unsent cancelled) body e h = absurd (cc h)
post_from_success provider send left n unreadable body e h = absurd (cc h)
post_from_success provider send left n (replied status text) body e h = ground (arith, e, h)

post_from_retry :
    (provider : String) (send : ℕ → Attempt) (left n : ℕ) (a : Attempt)
    → send n ≡ a
    → is_retried provider a ≡ true
    → (post_from provider send (suc left) n).0 ≡ (post_from provider send left (suc n)).0
unfolding post_from
post_from_retry provider send left n (unsent cancelled) e h = ground (arith, e, h)
post_from_retry provider send left n unreadable e h = absurd (cc h)
post_from_retry provider send left n (replied status text) e h = ground (arith, e, h)

IsPosted-suc :
    (provider : String) (send : ℕ → Attempt) (left n k : ℕ) (body : String)
    → is_retried provider (send n) ≡ true
    → IsPosted provider send left (suc n) body k
    → IsPosted provider send (suc left) n body (suc k)
IsPosted-suc provider send left n k body now later = record {
  in_time = omega (arith, later.in_time);
  sent = subst (λ i. body_of (send i) ≡ some body) (omega arith) later.sent;
  retried = from_first;
}
  where
    from_first : (j : ℕ) → j < suc k → is_retried provider (send (n + j)) ≡ true
    from_first zero h = subst (λ i. is_retried provider (send i) ≡ true) (omega arith) now
    from_first (suc j) h =
        subst (λ i. is_retried provider (send i) ≡ true) (omega arith)
          (later.retried j (omega (arith, h)))

post_from-IsPosted :
    (provider : String) (send : ℕ → Attempt) (left n : ℕ) (body : String)
    → (post_from provider send left n).0 ≡ ok body
    → (k : ℕ) × IsPosted provider send left n body k
post_from-IsPosted provider send zero n body h = absurd (unfold post_from in cc h)
post_from-IsPosted provider send (suc left) n body h =
    elim (post_from_cases provider send left n (send n) refl) [
      | inl (b, good, e) ↦
          let same : b ≡ body = ok_injective (sym e ∙ h) in
          (
            0,
            record {
              in_time = omega arith;
              sent = subst (λ i. body_of (send i) ≡ some body) (omega arith) (good ∙ ap some same);
              retried = λ j less. absurd (omega (arith, less));
            },
          )
      | inr (inl (again, e)) ↦
          let (k, later) = post_from-IsPosted provider send left (suc n) body (sym e ∙ h) in
          (suc k, IsPosted-suc provider send left n k body again later)
      | inr (inr e) ↦ absurd (cc (e, h))
    ]

post_from_answers :
    (provider : String) (send : ℕ → Attempt) (left n k : ℕ) (body : String)
    → IsPosted provider send left n body k
    → (post_from provider send left n).0 ≡ ok body
post_from_answers provider send zero n k body p = absurd (omega (arith, p.in_time))
post_from_answers provider send (suc left) n zero body p =
    post_from_success provider send left n (send n) body refl
      (subst (λ i. body_of (send i) ≡ some body) (omega arith) p.sent)
post_from_answers provider send (suc left) n (suc k) body p =
    post_from_retry provider send left n (send n) refl
      (subst (λ i. is_retried provider (send i) ≡ true) (omega arith) (p.retried 0 (omega arith)))
    ∙ post_from_answers provider send left (suc n) k body (record {
      in_time = omega (arith, p.in_time);
      sent = subst (λ i. body_of (send i) ≡ some body) (omega arith) p.sent;
      retried = λ j less.
          subst (λ i. is_retried provider (send i) ≡ true) (omega arith)
            (p.retried (suc j) (omega (arith, less)));
    })

-- A request gives a body just where one of its attempts, of three, or of one to groq, succeeds with that
-- body and every attempt before it was not sent or met a busy server.
pub post_json-IsPosted :
    (provider : String) (send : ℕ → Attempt) (body : String)
    → ((post_json provider send).0 ≡ ok body)
      ↔ ((k : ℕ) × IsPosted provider send (max_retries provider) 0 body k)
unfolding post_json
post_json-IsPosted provider send body = (
  post_from-IsPosted provider send (max_retries provider) 0 body,
  λ (k, p). post_from_answers provider send (max_retries provider) 0 k body p,
)
