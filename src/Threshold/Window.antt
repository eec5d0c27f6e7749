-- ===== src/Threshold/Window.antt =====
-- The window holds the last decisions, as many as its size.
use llmsentinel_router.Prelude.{
  ℕ, zero, suc, ◌-◌, ◌≤◌, ◌<◌, ◌≡◌, refl, ap, sym, ◌∙◌, Bool, List, [], ◌∷◌, ◌++◌, if◌then◌else◌,
  arith, length, drop, length-append, length-drop, append_assoc, append-nil, ltb, ltb→lt, inl, inr,
  Bool-cases,
}
use llmsentinel_router.Prelude.Int.{ℤ, pos, pos_part, leb_ℤ}
use llmsentinel_router.Prelude.Float.{Float64}
use llmsentinel_router.Threshold.{Dynamic, new, add_decision}

-- The last `n` elements of a list.
abbrev pub last : ℕ → List Bool → List Bool
last n xs = drop (length xs - n) xs

drop-append : (k : ℕ) (xs ys : List Bool) → k ≤ length xs → drop k (xs ++ ys) ≡ drop k xs ++ ys
drop-append zero xs ys h = refl
drop-append (suc k) [] ys h = absurd (omega arith)
drop-append (suc k) (x ∷ xs) ys h = drop-append k xs ys (omega arith)

drop_one-drop : (k : ℕ) (xs : List Bool) → drop 1 (drop k xs) ≡ drop (suc k) xs
drop_one-drop zero xs = refl
drop_one-drop (suc k) [] = refl
drop_one-drop (suc k) (x ∷ xs) = drop_one-drop k xs

-- One more decision, on a window of the last `n` decisions.
last-short :
    (n : ℕ) (ds : List Bool) (d : Bool) → length ds < n → last n (ds ++ d ∷ []) ≡ ds ++ d ∷ []
last-short n ds d h =
    let none_dropped : length (ds ++ d ∷ []) - n ≡ 0 = omega (arith, length-append ds (d ∷ [])) in
    ap (λ k. drop k (ds ++ d ∷ [])) none_dropped

last-full :
    (n : ℕ) (ds : List Bool) (d : Bool)
    → 0 < n
    → n ≤ length ds
    → last n (ds ++ d ∷ []) ≡ drop 1 (last n ds) ++ d ∷ []
last-full n ds d p h =
    let one_more : length (ds ++ d ∷ []) - n ≡ suc (length ds - n) =
      omega (arith, length-append ds (d ∷ [])) in
    ap (λ k. drop k (ds ++ d ∷ [])) one_more
    ∙ drop-append (suc (length ds - n)) ds (d ∷ []) (omega arith)
    ∙ ap (λ w. w ++ d ∷ []) (sym (drop_one-drop (length ds - n) ds))

length-last : (n : ℕ) (ds : List Bool) → n ≤ length ds → length (last n ds) ≡ n
length-last n ds h = omega (arith, length-drop (length ds - n) ds)

last_whole : (n : ℕ) (ds : List Bool) → length ds < n → last n ds ≡ ds
last_whole n ds h = let e : length ds - n ≡ 0 = omega arith in ap (λ k. drop k ds) e

module _ {F : Type 0} where
  -- AddDecision for each decision of a list, in order.
  abbrev pub add_all : List Bool → Dynamic F → Dynamic F
  add_all [] d = d
  add_all (x ∷ xs) d = add_all xs (add_decision x d)

  add_decision-window :
      (n : ℕ) (past : List Bool) (x : Bool) (d : Dynamic F)
      → 0 < n
      → d.window_size ≡ pos n
      → d.window ≡ last n past
      → (add_decision x d).window ≡ last n (past ++ x ∷ [])
  unfolding add_decision
  add_decision-window n past x d p size w = elim (Bool-cases (ltb (length past) n)) [
    | inl short ↦
        let h : length past < n = ltb→lt (length past) n short in
        ground (arith, size, w, last_whole n past h, last-short n past x h, ap length w)
    | inr full ↦
        let h : n ≤ length past = ground arith in
        ground (arith, size, w, last-full n past x p h, length-last n past h, ap length w)
  ]

  add_all-last :
      (n : ℕ) (past ds : List Bool) (d : Dynamic F)
      → 0 < n
      → d.window_size ≡ pos n
      → d.window ≡ last n past
      → (add_all ds d).window ≡ last n (past ++ ds)
  add_all-last n past [] d p size w = rw append-nil w
  add_all-last n past (x ∷ ds) d p size w =
      add_all-last n (past ++ x ∷ []) ds (add_decision x d) p (unfold add_decision in ground arith)
        (add_decision-window n past x d p size w)
      ∙ ap (last n) (append_assoc past (x ∷ []) ds)

-- The size that New gives the window.
abbrev pub size_of : ℤ → ℕ
size_of n = if leb_ℤ n (pos 0) then 20 else pos_part n

module _ {F : Type 0} ⦃fl : Float64 F⦄ where
  -- After any decisions since New, the window holds the last of them in order, as many as its size.
  pub add_all-window :
      (target : F) (n : ℤ) (initial : F) (ds : List Bool)
      → (add_all ds (new target n initial)).window ≡ last (size_of n) ds
  unfolding new
  add_all-window target n initial ds =
      add_all-last (size_of n) [] ds (new target n initial) (ground arith) (ground arith)
        (ground arith)
