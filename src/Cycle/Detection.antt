-- ===== src/Cycle/Detection.antt =====
-- The detector sees a prompt again, and what it remembers is bounded.
use llmsentinel_router.Prelude.{
  ℕ, zero, suc, ◌-◌, ◌≤◌, String, ◌≡◌, refl, true, false, ◌||◌, List, [], ◌∷◌, ◌++◌, arith, length,
  drop, length-append, length-drop,
}
use llmsentinel_router.Prelude.Int.{ℤ, pos, pos_part, leb_ℤ}
use llmsentinel_router.Semantic.Hash.{Digest, sim_hash, hamming_distance, hamming_distance_self}
use llmsentinel_router.Cycle.{
  Detector, new_detector, exchange, any_close, detect_prompt, trimmed, add,
}

-- Bounds that `New` makes positive.
pub record IsValid (d : Detector) : Type 0 where
  pub threshold_positive : leb_ℤ d.threshold (pos 0) ≡ false
  pub max_positive : leb_ℤ d.max_hashes (pos 0) ≡ false

pub new_detector-IsValid : (id : String) (t n : ℤ) → IsValid (new_detector id t n)
unfolding new_detector
new_detector-IsValid id t n = ground arith

any_close-append :
    (c : ℕ) (t : ℤ) (xs ys : List ℕ)
    → any_close c t (xs ++ ys) ≡ (any_close c t xs || any_close c t ys)
unfolding any_close
any_close-append c t [] ys = refl
any_close-append c t (x ∷ xs) ys = ground (arith, any_close-append c t xs ys)

drop-append : (k : ℕ) (xs ys : List ℕ) → k ≤ length xs → drop k (xs ++ ys) ≡ drop k xs ++ ys
drop-append zero xs ys h = refl
drop-append (suc k) [] ys h = absurd (omega arith)
drop-append (suc k) (x ∷ xs) ys h = drop-append k xs ys (omega arith)

-- The last hash of a list survives trimming to a positive bound.
any_close-trimmed :
    (c : ℕ) (t n : ℤ) (hs : List ℕ) (h : ℕ)
    → leb_ℤ n (pos 0) ≡ false
    → leb_ℤ (pos (hamming_distance c h)) t ≡ true
    → any_close c t (trimmed n (hs ++ h ∷ [])) ≡ true
unfolding trimmed any_close
any_close-trimmed c t n hs h p near =
    let k = length (hs ++ h ∷ []) - pos_part n in
    let all = any_close-append c t hs (h ∷ []) in
    let few = any_close-append c t (drop k hs) (h ∷ []) in
    let cut : drop k (hs ++ h ∷ []) ≡ drop k hs ++ h ∷ [] =
      drop-append k hs (h ∷ []) (ground (arith, length-append hs (h ∷ []))) in
    ground (arith, all, few, cut)

-- A prompt that has been answered is seen again: after Add, DetectPrompt finds it while its answer
-- is still the last one.
pub detect-add :
    (g : Digest) (prompt response : String) (d : Detector)
    → IsValid d
    → detect_prompt g prompt (add g prompt response d) ≡ true
unfolding detect_prompt add
detect-add g prompt response d v =
    let h = sim_hash g (exchange prompt response) in
    any_close-trimmed h d.threshold d.max_hashes d.recent_hashes h v.max_positive
      (ground (arith, hamming_distance_self h, v.threshold_positive))

-- Add keeps the hashes within their bound.
pub length-add :
    (g : Digest) (prompt response : String) (d : Detector)
    → IsValid d
    → length d.recent_hashes ≤ pos_part d.max_hashes
    → length (add g prompt response d).recent_hashes ≤ pos_part d.max_hashes
unfolding add trimmed
length-add g prompt response d v h =
    let hs = d.recent_hashes ++ sim_hash g (exchange prompt response) ∷ [] in
    ground (
      arith,
      length-drop (length hs - pos_part d.max_hashes) hs,
      v.max_positive,
      length-append d.recent_hashes (sim_hash g (exchange prompt response) ∷ []),
    )
