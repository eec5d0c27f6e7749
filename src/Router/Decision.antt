-- ===== src/Router/Decision.antt =====
-- decideRoute, buildReason and finalCost of internal/router/router.go.
use llmsentinel_router.Prelude.{
  String, ◌==◌, ◌≡◌, Bool, true, false, not, ◌&&◌, ◌⊎◌, inl, inr, if◌then◌else◌, arith, Bool-cases,
  Option, none, some,
}
use llmsentinel_router.Prelude.Float.{Float64, IsOrdered, ◌≼◌, IsFinite, not-lt_of_le}

-- The texts of buildReason, with the numbers that they print.
pub data Reason (F : Type 0) : Type 0 where
  forced_strong : Reason F
  downgraded : F → F → Reason F
  above : F → F → String → Reason F
  below : F → F → Reason F

module _ {F : Type 0} ⦃fl : Float64 F⦄ where
  unfoldable pub decide_route : F → String → F → Bool → Bool → String
  decide_route score impact threshold strict_mode cycle_detected =
      let effective_score = if strict_mode then fl.sub score (fl.lit 1_500) else score in
      if cycle_detected
      then "strong"
      else if fl.lt effective_score threshold
      then "weak"
      else if strict_mode && not (impact == "HIGH")
      then "weak"
      else "strong"

  unfoldable pub build_reason : F → String → F → Bool → Bool → Reason F
  build_reason score impact threshold strict_mode cycle_detected =
      if cycle_detected
      then forced_strong
      else if fl.le threshold score
      then (if strict_mode && not (impact == "HIGH")
          then downgraded score threshold
          else above score threshold impact)
      else below score threshold

  -- The cost that the provider reports, or 0 where it reports none; where it comes from; and the
  -- computed cost, if it is that.
  unfoldable pub final_cost : F → F × String × Option F
  final_cost cost =
      if fl.le (fl.lit 0) cost
      then (cost, "provider", none)
      else (fl.lit 0, "computed", some (fl.lit 0))

module _ {F : Type 0} ⦃fl : Float64 F⦄ (o : IsOrdered F) where
  -- What is not below a bound stays so when it grows.
  not-lt_mono : (x y t : F) → x ≼ y → fl.lt x t ≡ false → fl.lt y t ≡ false
  not-lt_mono x y t h k = elim (Bool-cases (fl.lt y t)) [
    | inr e ↦ e
    | inl e ↦
        let n : (y ≼ y) × (t ≼ t) = o.refl_of_lt y t e in
        let x_num : x ≼ x = (o.refl_of_le x y h).0 in
        let t≤x : t ≼ x = ground (arith, o.lt-eq-not-le x t x_num n.1) in
        not-lt_of_le o y t (o.le_trans t x y t≤x h)
  ]

  -- A prompt that is routed to the strong tier is still routed there when its score is higher and
  -- all else is the same. Both scores are finite.
  pub decide_route_mono :
      (s s' : F) (impact : String) (t : F) (strict cycle : Bool)
      → IsFinite s
      → IsFinite s'
      → s ≼ s'
      → decide_route s impact t strict cycle ≡ "strong"
      → decide_route s' impact t strict cycle ≡ "strong"
  unfolding decide_route
  decide_route_mono s s' impact t true cycle fs fs' h k =
      let c = fl.lit 1_500 in
      let c_num : c ≼ c = o.refl_of_finite c (o.lit_finite 1_500 (ground arith)) in
      let h' : fl.sub s c ≼ fl.sub s' c =
        o.sub_mono s s' c (o.sub_num s c fs c_num) (o.sub_num s' c fs' c_num) h in
      ground (arith, not-lt_mono (fl.sub s c) (fl.sub s' c) t h')
  decide_route_mono s s' impact t false cycle fs fs' h k = ground (arith, not-lt_mono s s' t h)

  -- Strict mode only restricts: what it routes to the strong tier is routed there without it too.
  -- The score is finite.
  pub strict_mode_restricts :
      (s : F) (impact : String) (t : F) (cycle : Bool)
      → IsFinite s
      → decide_route s impact t true cycle ≡ "strong"
      → decide_route s impact t false cycle ≡ "strong"
  unfolding decide_route
  strict_mode_restricts s impact t cycle fs k =
      ground (arith, not-lt_mono (fl.sub s (fl.lit 1_500)) s t (o.sub-le s 1_500 fs (ground arith)))

  -- Without strict mode the route and the reason agree: the reason says that the score is below the
  -- threshold just where the route is weak. Score and threshold are not NaN.
  pub reason_matches_route :
      (s : F) (impact : String) (t : F)
      → s ≼ s
      → t ≼ t
      → ((decide_route s impact t false false ≡ "weak")
          × (build_reason s impact t false false ≡ below s t))
        ⊎ ((decide_route s impact t false false ≡ "strong")
            × (build_reason s impact t false false ≡ above s t impact))
  unfolding decide_route build_reason
  reason_matches_route s impact t hs ht = elim (Bool-cases (fl.le t s)) [
    | inl e ↦
        inr (ground (arith, o.lt-eq-not-le s t hs ht), ground (arith, o.lt-eq-not-le s t hs ht))
    | inr e ↦
        inl (ground (arith, o.lt-eq-not-le s t hs ht), ground (arith, o.lt-eq-not-le s t hs ht))
  ]

module _ {F : Type 0} ⦃fl : Float64 F⦄ where
  -- In strict mode a prompt of impact HIGH whose score is at least the threshold, by less than 0.15,
  -- is routed to the weak tier with the reason that its score is at least the threshold.
  pub strict_reason_misreports :
      (s t : F)
      → t ≼ s
      → fl.lt (fl.sub s (fl.lit 1_500)) t ≡ true
      → (decide_route s "HIGH" t true false ≡ "weak")
        × (build_reason s "HIGH" t true false ≡ above s t "HIGH")
  unfolding decide_route build_reason
  strict_reason_misreports s t h k = (ground arith, ground arith)
