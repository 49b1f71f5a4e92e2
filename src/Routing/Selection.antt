-- ===== src/Routing/Selection.antt =====
-- What `ModelRouter.select` promises: a usable model if there is one, the forced role for simple
-- and for complex requests, the best score otherwise.
use mathlib.Core.Bool.{false≢true}
use mathlib.Core.List.{Memᴰ}
use mathlib.Core.Path.{subst}
use text.Mathlib.TextEquality.{eq_iff}
use athena_ai.Prelude.{
  String, ◌≡◌, refl, sym, ◌∙◌, ◌⊎◌, inl, inr, true, false, Option, none, some, List, [], ◌∷◌, arith,
  ◌==◌, string_eq, Bool-cases, Option-cases, select, All, All-mp, All-mem, All-select,
  All-of_select, select_all, select_none,
}
use athena_ai.Prelude.Floats.{Floats, FloatLaws}
use athena_ai.Prelude.Sorting.{
  IsDescending, All-sorted_desc, All-of_sorted_desc, sorted_desc-IsDescending, sorted_desc-cons,
}
use athena_ai.Core.Errors.{ok, err, athena, model_unavailable}
use athena_ai.Core.Types.{RoutingContext}
use athena_ai.Routing.Policies.{RoutingPolicy}
use athena_ai.Routing.Scorer.{ModelMetadata, score, rank}
use athena_ai.Routing.Router.{
  Complexity, RoutingDecision, ModelRouter, classify_complexity, role_for, is_usable,
  is_circuit_open, first_with_role, first_of_ranked, is_medium, decide, choose, policy_or_default,
  select_model,
}

module _ (R : Floats) (laws : FloatLaws R) where
  open R use {Float, decimal, of_ℕ, mul, div, le}
  open laws use {le_total, le_trans}

  abbrev Model : Type 0
  Model = ModelMetadata Float

  le_refl : (a : Float) → le a a ≡ true
  le_refl a = elim (le_total a a) [ inl h ↦ h | inr h ↦ h ]

  -- the first of a non-empty ranking is an element with the greatest score
  first_ranked :
      (P : Model → Type 0) (p : RoutingPolicy Float) (m : Model) (ms : List Model)
      → All P (m ∷ ms)
      → All (λ x. x.is_available ≡ true) (m ∷ ms)
      → (best : Model) × (first_of_ranked R (rank R p (m ∷ ms)) ≡ ok best)
        × P best
        × All (λ x. le (score R p x) (score R p best) ≡ true) (m ∷ ms)
  unfolding rank first_of_ranked
  first_ranked P p m ms h available =
      let (y, ys, e) = sorted_desc-cons le (score R p) m ms in
      let order : IsDescending le (score R p) (y ∷ ys) =
        rw e at (sorted_desc-IsDescending le (score R p) le_total le_trans (m ∷ ms)) in
      let holds : All P (y ∷ ys) = rw e at (All-sorted_desc le (score R p) P (m ∷ ms) h) in
      (
        y,
        rw (select_all (λ x. x.is_available) (m ∷ ms) available, e),
        holds.0,
        All-of_sorted_desc le (score R p) _ (m ∷ ms) (rw e (le_refl _, order.0)),
      )

  -- what the choice among `available` guarantees
  record IsChoice (p : RoutingPolicy Float) (c : Complexity) (P : Model → Type 0)
      (available : List Model) (best : Model) : Type 0 where
    holds : P best
    forced : is_medium c ≡ false → All (λ m. m.role ≡ role_for c → best.role ≡ role_for c) available
    ranked : is_medium c ≡ true → All (λ m. le (score R p m) (score R p best) ≡ true) available

  first_with_role-none :
      (role : String) (ms : List Model)
      → first_with_role R role ms ≡ none
      → (Q : Type 0) → All (λ m. m.role ≡ role → Q) ms
  unfolding first_with_role
  first_with_role-none role [] e Q = tt
  first_with_role-none role (m ∷ ms) e Q = elim (Bool-cases (m.role == role)) [
    | inl same ↦ cc
    | inr other ↦ (
      λ is. absurd (false≢true (sym other ∙ (eq_iff m.role role).1 is)),
      first_with_role-none role ms (rw other at e) Q,
    )
  ]

  first_with_role-some :
      (P : Model → Type 0) (role : String) (ms : List Model) {m : Model}
      → first_with_role R role ms ≡ some m
      → All P ms
      → P m × (m.role ≡ role)
  unfolding first_with_role
  first_with_role-some P role [] e h = cc
  first_with_role-some P role (x ∷ xs) {m} e h = elim (Bool-cases (x.role == role)) [
    | inl same ↦
        let e' : some x ≡ some m = rw same at e in
        let q : x ≡ m = cc in
        subst (λ y. P y × (y.role ≡ role)) q (h.0, (eq_iff x.role role).0 same)
    | inr other ↦ first_with_role-some P role xs (rw other at e) h.1
  ]

  choose-IsChoice :
      (P : Model → Type 0) (p : RoutingPolicy Float) (c : Complexity) (m : Model) (ms : List Model)
      → All P (m ∷ ms)
      → All (λ x. x.is_available ≡ true) (m ∷ ms)
      → (best : Model) × (choose R p c (m ∷ ms) ≡ ok best) × IsChoice p c P (m ∷ ms) best
  unfolding choose
  choose-IsChoice P p c m ms h available =
      let (best, e, holds, ranked) = first_ranked P p m ms h available in
      elim (Option-cases (first_with_role R (role_for c) (m ∷ ms))) [
        | inl absent ↦ (
          best,
          rw (absent, choose) e,
          record {
            holds = holds;
            forced = λ _. first_with_role-none (role_for c) (m ∷ ms) absent _;
            ranked = λ _. ranked;
          },
        )
        | inr (preferred, found) ↦ elim (Bool-cases (is_medium c)) [
          | inl med ↦ (
            best,
            rw (found, choose, med) e,
            record {
              holds = holds;
              forced = λ n. absurd (false≢true (sym n ∙ med));
              ranked = λ _. ranked;
            },
          )
          | inr other ↦
              let (fine, role) = first_with_role-some P (role_for c) (m ∷ ms) found h in
              (
                preferred,
                rw (found, choose, other),
                record {
                  holds = fine;
                  forced = λ _. All-mp (m ∷ ms) (λ _ _ _. role) h;
                  ranked = λ n. absurd (false≢true (sym other ∙ n));
                },
              )
        ]
      ]

  module _ (now : Float) (r : ModelRouter Float) (context : RoutingContext)
      (policy : Option (RoutingPolicy Float)) where
    abbrev tier : Complexity
    tier = classify_complexity context.estimated_input_tokens

    abbrev the_score : Model → Float
    the_score = score R (policy_or_default R policy)

    -- The model that a decision stands on: of the catalog, marked available, its circuit not open.
    -- For a simple or a complex request it has the role of that tier if any usable model has it;
    -- for a medium one no usable model has a greater score.
    pub record Selected (d : RoutingDecision Float) : Type 0 where
      pub best : Model
      pub listed : Memᴰ best r.catalog
      pub available : best.is_available ≡ true
      pub not_open : is_circuit_open R now r best.role ≡ false
      pub forced :
          is_medium tier ≡ false
          → All
              (λ m. is_usable R now r m ≡ true → m.role ≡ role_for tier → best.role ≡ role_for tier)
              r.catalog
      pub ranked :
          is_medium tier ≡ true
          → All
              (λ m. is_usable R now r m ≡ true → le (the_score m) (the_score best) ≡ true)
              r.catalog
      pub named : d.selected_role ≡ best.role
      pub costed : le (decimal 1 4) d.estimated_cost_usd ≡ true

    usable-is_available : (m : Model) → is_usable R now r m ≡ true → m.is_available ≡ true
    unfolding is_usable
    usable-is_available m h = ground arith

    usable-not_open :
        (m : Model) → is_usable R now r m ≡ true → is_circuit_open R now r m.role ≡ false
    unfolding is_usable
    usable-not_open m h = ground arith

    decide_cost :
        (c : Complexity) (m : Model)
        → le (decimal 1 4) (decide R context c m).estimated_cost_usd ≡ true
    unfolding decide
    decide_cost c m =
        let cost =
          mul (div (of_ℕ context.estimated_input_tokens) (of_ℕ 1000)) m.cost_per_1k_tokens in
        ground (arith, le_total (decimal 1 4) cost, le_refl (decimal 1 4))

    decide_role : (c : Complexity) (m : Model) → (decide R context c m).selected_role ≡ m.role
    unfolding decide
    decide_role c m = refl

    -- On floats with the laws of finite doubles: with no usable model select raises
    -- ModelUnavailableError; otherwise it returns a decision that stands on a listed, available
    -- model whose circuit is not open, of the forced role for a simple or complex request if a
    -- usable model has it, and of the greatest score for a medium one, at an estimated cost of at
    -- least 0.0001.
    pub select_model-Selected :
        ((select_model R now r context policy ≡ err (athena model_unavailable))
          × All (λ m. is_usable R now r m ≡ false) r.catalog)
        ⊎ ((d : RoutingDecision Float) × (select_model R now r context policy ≡ ok d) × Selected d)
    unfolding select_model
    select_model-Selected = from (select (is_usable R now r) r.catalog) refl
      where
        from :
            (l : List Model)
            → select (is_usable R now r) r.catalog ≡ l
            → ((select_model R now r context policy ≡ err (athena model_unavailable))
                × All (λ m. is_usable R now r m ≡ false) r.catalog)
              ⊎ ((d : RoutingDecision Float) × (select_model R now r context policy ≡ ok d)
                  × Selected d)
        from [] e = inl (rw e, select_none (is_usable R now r) r.catalog e)
        from (m ∷ ms) e =
            let kept : All (λ x. Memᴰ x r.catalog × (is_usable R now r x ≡ true)) (m ∷ ms) =
              rw e at (All-select _ (is_usable R now r) r.catalog (All-mem r.catalog)) in
            let (best, q, choice) =
              choose-IsChoice _ (policy_or_default R policy) tier m ms kept
                (All-mp (m ∷ ms) (λ x h. usable-is_available x h.1) kept) in
            inr (
              decide R context tier best,
              rw (e, q),
              record {
                best = best;
                listed = choice.holds.0;
                available = usable-is_available best choice.holds.1;
                not_open = usable-not_open best choice.holds.1;
                forced =
                    λ n. All-of_select _ (is_usable R now r) r.catalog (rw e (choice.forced n));
                ranked =
                    λ n. All-of_select _ (is_usable R now r) r.catalog (rw e (choice.ranked n));
                named = decide_role tier best;
                costed = decide_cost tier best;
              },
            )
