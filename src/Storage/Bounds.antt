-- ===== src/Storage/Bounds.antt =====
-- The limit on a session's cost, under any interleaving of statements that respect it.
use llmsentinel_router.Prelude.{
  String, ◌==◌, eq_iff, ◌≡◌, Bool, true, false, ◌&&◌, Option, none, subst, ap, sym, not, some, List,
  [], ◌∷◌, if◌then◌else◌, arith, inl, inr, Bool-cases, Option-cases, both_of_and,
}
use llmsentinel_router.Prelude.Float.{
  Float64, IsOrdered, IsFinite, ◌≼◌, le_of_not-lt, le_of_lt, zero-IsFinite, zero_num,
  add-le_of_nonpos, add_nonneg,
}
use llmsentinel_router.Prelude.Map.{lookup, insert, lookup-insert}
use llmsentinel_router.Storage.Database.{
  Session, Statement, insert_session, charge_within_limit, refund, charge, deactivate, restart,
  Table, update_where, update_number, is_null, fits, charged, refunded, restarted, apply, apply_all,
}

module _ {F : Type 0} ⦃fl : Float64 F⦄ where
  -- A row that has cost no less than nothing and no more than its limit.
  pub record WithinLimit (r : Session F) : Type 0 where
    pub not_negative : fl.lit 0 ≼ r.current_cost
    pub within : r.current_cost ≼ r.max_cost_per_session
    pub finite : IsFinite r.max_cost_per_session

  abbrev pub IsSound : Table F → Type 0
  IsSound t = (id : String) (r : Session F) → lookup id t ≡ some r → WithinLimit r

  -- A statement that the budget manager may issue while the kill switch is on.
  abbrev pub IsGuarded : Statement F → Type 0
  IsGuarded (insert_session r) = WithinLimit r
  IsGuarded (charge_within_limit id c) = fl.lt c (fl.lit 0) ≡ false
  IsGuarded (refund id d) = fl.lt d (fl.lit 0) ≡ true
  IsGuarded (charge id c) = ⊥
  IsGuarded (deactivate id) = Unit
  IsGuarded (restart id m) = (fl.lit 0 ≼ m) × IsFinite m

  abbrev pub AllGuarded : List (Statement F) → Type 0
  AllGuarded [] = Unit
  AllGuarded (st ∷ sts) = IsGuarded st × AllGuarded sts

  insert-IsSound :
      (id : String) (r : Session F) (t : Table F)
      → WithinLimit r
      → IsSound t
      → IsSound (insert id r t)
  insert-IsSound id r t w h j x e =
      let e' : (if id == j then some r else lookup j t) ≡ some x =
        rw (← lookup-insert id j r t) e in
      elim (Bool-cases (id == j)) [
        | inl same ↦ subst WithinLimit (ground arith) w
        | inr other ↦ h j x (ground arith)
      ]

  -- What an UPDATE does to the row that it finds.
  abbrev updated :
      (Session F → Bool) → (Session F → Session F) → Option (Session F) → Option (Session F)
  updated p f none = none
  updated p f (some r) = if p r then some (f r) else some r

  pub lookup-update_where :
      (id : String) (p : Session F → Bool) (f : Session F → Session F) (t : Table F) (j : String)
      → lookup j (update_where id p f t).1
        ≡ (if id == j then updated p f (lookup j t) else lookup j t)
  unfolding update_where
  lookup-update_where id p f t j = elim (Option-cases (lookup id t)) [
    | inl e ↦ ground (arith, e, eq_iff id j, ap (λ k. lookup k t) {x = id} {y = j})
    | inr (r, e) ↦ ground (arith, e, eq_iff id j, lookup-insert id j (f r) t)
  ]

  update_where-IsSound :
      (id : String) (p : Session F → Bool) (f : Session F → Session F) (t : Table F)
      → ((r : Session F) → p r ≡ true → WithinLimit r → WithinLimit (f r))
      → IsSound t
      → IsSound (update_where id p f t).1
  update_where-IsSound id p f t keep h j x e = elim (Option-cases (lookup j t)) [
    | inl gone ↦ absurd (ground (arith, lookup-update_where id p f t j))
    | inr (r, here) ↦ elim (Bool-cases (id == j && p r)) [
      | inl hit ↦
          subst WithinLimit (ground (arith, lookup-update_where id p f t j))
            (keep r (ground arith) (h j r here))
      | inr miss ↦ subst WithinLimit (ground (arith, lookup-update_where id p f t j)) (h j r here)
    ]
  ]

  -- The UPDATE of a number changes a row as one with the condition that it is not NULL does.
  update_number-table :
      (id : String) (x : Session F → F) (f : Session F → Session F) (t : Table F)
      → (update_number id x f t).1 ≡ (update_where id (λ r. not (is_null (x r))) f t).1
  unfolding update_number update_where
  update_number-table id x f t = ground arith

  update_number-IsSound :
      (id : String) (x : Session F → F) (f : Session F → Session F) (t : Table F)
      → ((r : Session F) → WithinLimit r → WithinLimit (f r))
      → IsSound t
      → IsSound (update_number id x f t).1
  update_number-IsSound id x f t keep h =
      subst IsSound (sym (update_number-table id x f t))
        (update_where-IsSound id (λ r. not (is_null (x r))) f t (λ r p. keep r) h)

module _ {F : Type 0} ⦃fl : Float64 F⦄ (o : IsOrdered F) where
  IsFinite-cost : (r : Session F) → WithinLimit r → IsFinite r.current_cost
  IsFinite-cost r w =
      o.finite_between (fl.lit 0) r.current_cost r.max_cost_per_session (zero-IsFinite o) w.finite
        w.not_negative w.within

  charged-WithinLimit :
      (c : F) (r : Session F)
      → fl.lt c (fl.lit 0) ≡ false
      → fits c r ≡ true
      → WithinLimit r
      → WithinLimit (charged c r)
  unfolding fits charged
  charged-WithinLimit c r h p w =
      let below : fl.add r.current_cost c ≼ r.max_cost_per_session = (both_of_and _ _ p).1 in
      let num : c ≼ c = o.num_of_add_num r.current_cost c (o.refl_of_le _ _ below).0 in
      record {
        not_negative =
            add_nonneg o r.current_cost c (IsFinite-cost r w) w.not_negative
              (le_of_not-lt o c (fl.lit 0) num (zero_num o) h);
        within = below;
        finite = w.finite;
      }

  refunded-WithinLimit :
      (d : F) (r : Session F)
      → fl.lt d (fl.lit 0) ≡ true
      → WithinLimit r
      → WithinLimit (refunded d r)
  unfolding refunded
  refunded-WithinLimit d r h w = elim (Bool-cases (fl.lt (fl.add r.current_cost d) (fl.lit 0))) [
    | inl negative ↦ record {
      not_negative = rw negative (zero_num o);
      within = rw negative (o.le_trans _ _ _ w.not_negative w.within);
      finite = w.finite;
    }
    | inr enough ↦
        let num : fl.add r.current_cost d ≼ fl.add r.current_cost d =
          o.add_num r.current_cost d (IsFinite-cost r w) (o.refl_of_lt d _ h).0 in
        record {
          not_negative = rw enough (
              le_of_not-lt o (fl.add r.current_cost d) (fl.lit 0) num (o.refl_of_lt d _ h).1
                enough);
          within = rw enough (
              add-le_of_nonpos o r.current_cost d r.max_cost_per_session (IsFinite-cost r w)
                w.finite w.within (le_of_lt o d (fl.lit 0) h));
          finite = w.finite;
        }
  ]

  restarted-WithinLimit :
      (m : F) (r : Session F) → fl.lit 0 ≼ m → IsFinite m → WithinLimit (restarted m r)
  unfolding restarted
  restarted-WithinLimit m r low fin = record {
    not_negative = zero_num o;
    within = low;
    finite = fin;
  }

  -- Every guarded statement keeps every session within its limit.
  pub apply-IsSound :
      (st : Statement F) (t : Table F) → IsGuarded st → IsSound t → IsSound (apply st t).1
  unfolding apply
  apply-IsSound (insert_session r) t w h = elim (Bool-cases (is_null r.max_cost_per_session)) [
    | inl null ↦ rw (null) h
    | inr number ↦ rw (number) (elim (Option-cases (lookup r.session_id t)) [
      | inl e ↦ rw e (insert-IsSound r.session_id r t w h)
      | inr (x, e) ↦ rw e h
    ])
  ]
  apply-IsSound (charge_within_limit id c) t g h =
      update_where-IsSound id (fits c) (charged c) t (λ r. charged-WithinLimit c r g) h
  apply-IsSound (refund id d) t g h =
      update_number-IsSound id (λ r. fl.add r.current_cost d) (refunded d) t
        (λ r. refunded-WithinLimit d r g) h
  apply-IsSound (charge id c) t g h = absurd g
  apply-IsSound (deactivate id) t g h =
      update_where-IsSound id (λ r. true) (λ r. record r { is_active = false }) t
        (λ r p w. record { not_negative = w.not_negative; within = w.within; finite = w.finite }) h
  apply-IsSound (restart id m) t (low, fin) h =
      update_number-IsSound id (λ r. m) (restarted m) t (λ r w. restarted-WithinLimit m r low fin) h

  pub apply_all-IsSound :
      (sts : List (Statement F)) (t : Table F)
      → AllGuarded sts
      → IsSound t
      → IsSound (apply_all sts t)
  unfolding apply_all
  apply_all-IsSound [] t g h = h
  apply_all-IsSound (st ∷ sts) t g h =
      apply_all-IsSound sts (apply st t).1 g.1 (apply-IsSound st t g.0 h)
