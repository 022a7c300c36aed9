-- ===== src/InstrumentResolver/FrontMonth.antt =====
-- Which contract `select_front_month` of crates/instrument_resolver/src/lib.rs chooses.
use mathlib.Core.Path.{subst}
use tv_bot_core.Base.{
  All-map, true, false, List, [], ◌∷◌, String, ok, err, ◌≡◌, ◌⊎◌, inl, inr, refl, arith, All,
  Contains, if◌then◌else◌, Bool-cases, sym, ◌∙◌, if_true, if_false, ok_injective,
}
use tv_bot_core.External.{Externals}
use tv_bot_core.InstrumentResolver.{
  ContractMonth, ContractListing, FrontMonthSelectionBasis, InstrumentResolverError, month_le,
  has_rolled_over, selection_basis, insert_by_month, sort_by_month, first_active,
  select_front_month,
}

month_le_total : (a b : ContractMonth) → month_le a b ≡ false → month_le b a ≡ true
month_le_total a b h = ground arith

month_le_trans :
    (a b c : ContractMonth) → month_le a b ≡ true → month_le b c ≡ true → month_le a c ≡ true
month_le_trans a b c h k = ground arith

month_le_refl : (a : ContractMonth) → month_le a a ≡ true
month_le_refl a = ground arith

ok_not_err : {E A : Type 0} {a : A} {e : E} → ok a ≡ err e → ⊥
ok_not_err h = cc

module _ {X : Externals} where
  -- No listing is of a later month than one behind it.
  abbrev IsOrdered : List (ContractListing X) → Type 0
  IsOrdered [] = Unit
  IsOrdered (listing ∷ chain) =
      All (λ l. month_le listing.month l.month ≡ true) chain × IsOrdered chain

  All-insert :
      (P : ContractListing X → Type 0) (listing : ContractListing X)
      (chain : List (ContractListing X))
      → P listing
      → All P chain
      → All P (insert_by_month listing chain)
  unfolding insert_by_month
  All-insert P listing [] p h = (p, tt)
  All-insert P listing (next ∷ chain) p h =
      elim (month_le listing.month next.month)
        as (λ b.
          All P (if b then listing ∷ next ∷ chain else next ∷ insert_by_month listing chain)) [
            | true ↦ (p, h)
            | false ↦ (h.0, All-insert P listing chain p h.1)
          ]

  insert-All :
      (P : ContractListing X → Type 0) (listing : ContractListing X)
      (chain : List (ContractListing X))
      → All P (insert_by_month listing chain)
      → P listing × All P chain
  unfolding insert_by_month
  insert-All P listing [] h = h
  insert-All P listing (next ∷ chain) h = elim (Bool-cases (month_le listing.month next.month)) [
    | inl e ↦
        subst (All P) (if_true (listing ∷ next ∷ chain) (next ∷ insert_by_month listing chain) e) h
    | inr e ↦
        let k : All P (next ∷ insert_by_month listing chain) =
          subst (All P) (if_false (listing ∷ next ∷ chain) (next ∷ insert_by_month listing chain) e)
            h in
        let (p, rest) = insert-All P listing chain k.1 in (p, (k.0, rest))
  ]

  sort-All :
      (P : ContractListing X → Type 0) (chain : List (ContractListing X))
      → All P (sort_by_month chain)
      → All P chain
  unfolding sort_by_month
  sort-All P [] h = tt
  sort-All P (listing ∷ chain) h =
      let (p, rest) = insert-All P listing (sort_by_month chain) h in (p, sort-All P chain rest)

  insert-Contains :
      (a listing : ContractListing X) (chain : List (ContractListing X))
      → Contains a (insert_by_month listing chain)
      → Contains a (listing ∷ chain)
  unfolding insert_by_month
  insert-Contains a listing [] h = h
  insert-Contains a listing (next ∷ chain) h =
      elim (Bool-cases (month_le listing.month next.month)) [
        | inl e ↦
            subst (Contains a)
              (if_true (listing ∷ next ∷ chain) (next ∷ insert_by_month listing chain) e) h
        | inr e ↦ swap a listing next chain (insert-Contains a listing chain) (
            subst (Contains a)
              (if_false (listing ∷ next ∷ chain) (next ∷ insert_by_month listing chain) e) h)
      ]
    where
      swap :
          (a listing next : ContractListing X) (chain : List (ContractListing X))
          → (Contains a (insert_by_month listing chain) → Contains a (listing ∷ chain))
          → Contains a (next ∷ insert_by_month listing chain)
          → Contains a (listing ∷ next ∷ chain)
      swap a listing next chain f (inl e) = inr (inl e)
      swap a listing next chain f (inr k) = elim (f k) [ inl e ↦ inl e | inr r ↦ inr (inr r) ]

  sort-Contains :
      (a : ContractListing X) (chain : List (ContractListing X))
      → Contains a (sort_by_month chain)
      → Contains a chain
  unfolding sort_by_month
  sort-Contains a [] h = h
  sort-Contains a (listing ∷ chain) h = elim (insert-Contains a listing (sort_by_month chain) h) [
    | inl e ↦ inl e
    | inr k ↦ inr (sort-Contains a chain k)
  ]

  insert-IsOrdered :
      (listing : ContractListing X) (chain : List (ContractListing X))
      → IsOrdered chain
      → IsOrdered (insert_by_month listing chain)
  unfolding insert_by_month
  insert-IsOrdered listing [] h = (tt, tt)
  insert-IsOrdered listing (next ∷ chain) h =
      elim (Bool-cases (month_le listing.month next.month)) [
        | inl e ↦
            subst IsOrdered
              (sym (if_true (listing ∷ next ∷ chain) (next ∷ insert_by_month listing chain) e))
              (
                (e, All-map chain (λ l k. month_le_trans listing.month next.month l.month e k) h.0),
                h,
              )
        | inr e ↦
            subst IsOrdered
              (sym (if_false (listing ∷ next ∷ chain) (next ∷ insert_by_month listing chain) e))
              (
                All-insert _ listing chain (month_le_total listing.month next.month e) h.0,
                insert-IsOrdered listing chain h.1,
              )
      ]

  sort-IsOrdered : (chain : List (ContractListing X)) → IsOrdered (sort_by_month chain)
  unfolding sort_by_month
  sort-IsOrdered [] = tt
  sort-IsOrdered (listing ∷ chain) =
      insert-IsOrdered listing (sort_by_month chain) (sort-IsOrdered chain)

module _ {X : Externals} (as_of : X.NaiveDate) (market_key : String) where
  -- The listing has not rolled over, and each one of the chain that has not is of no earlier month.
  abbrev pub IsFrontMonth :
      ContractListing X → FrontMonthSelectionBasis → List (ContractListing X) → Type 0
  IsFrontMonth selected basis chain =
      Contains selected chain
      × (has_rolled_over as_of selected ≡ false)
      × (basis ≡ selection_basis selected)
      × All (λ l. (has_rolled_over as_of l ≡ true) ⊎ (month_le selected.month l.month ≡ true)) chain

  abbrev pub NoneActive : InstrumentResolverError X → List (ContractListing X) → Type 0
  NoneActive e chain =
      (e ≡ InstrumentResolverError.no_active_contract market_key as_of)
      × All (λ l. has_rolled_over as_of l ≡ true) chain

  first_active-front :
      (ordered : List (ContractListing X)) (selected : ContractListing X)
      (basis : FrontMonthSelectionBasis)
      → IsOrdered ordered
      → first_active as_of market_key ordered ≡ ok (selected, basis)
      → IsFrontMonth selected basis ordered
  unfolding first_active
  first_active-front [] selected basis o h = cc
  first_active-front (listing ∷ ordered) selected basis o h =
      elim (Bool-cases (has_rolled_over as_of listing)) [
        | inl e ↦
            let (c, r, b, all) = first_active-front ordered selected basis o.1 (
              sym (
                if_true (first_active as_of market_key ordered)
                  (ok (listing, selection_basis listing)) e)
              ∙ h) in
            (inr c, r, b, (inl e, all))
        | inr e ↦
            let here : ok (listing, selection_basis listing) ≡ ok (selected, basis) =
              sym (
                if_false (first_active as_of market_key ordered)
                  (ok (listing, selection_basis listing)) e)
              ∙ h in
            let same : (listing, selection_basis listing) ≡ (selected, basis) =
              ok_injective {E = InstrumentResolverError X} refl here in
            subst (λ p. IsFrontMonth p.0 p.1 (listing ∷ ordered)) same
              (
                inl refl,
                e,
                refl,
                (inr (month_le_refl listing.month), All-map ordered (λ l k. inr k) o.0),
              )
      ]

  first_active-none :
      (ordered : List (ContractListing X)) (e : InstrumentResolverError X)
      → first_active as_of market_key ordered ≡ err e
      → NoneActive e ordered
  unfolding first_active
  first_active-none [] e h = (cc, tt)
  first_active-none (listing ∷ ordered) e h = elim (Bool-cases (has_rolled_over as_of listing)) [
    | inl r ↦
        let (same, all) = first_active-none ordered e (
          sym (
            if_true (first_active as_of market_key ordered) (ok (listing, selection_basis listing))
              r)
          ∙ h) in
        (same, (r, all))
    | inr r ↦ absurd (
        ok_not_err (
          sym (
            if_false (first_active as_of market_key ordered) (ok (listing, selection_basis listing))
              r)
          ∙ h))
  ]

  -- The front month that is selected is a listing of the chain that has not reached its cutoff, told
  -- with the date it is judged by, and every listing that has not reached its own is of the same month
  -- or a later one; when none is selected, every listing has reached its cutoff.
  pub select_front_month-first :
      (chain : List (ContractListing X))
      → ((selected : ContractListing X) (basis : FrontMonthSelectionBasis)
          → select_front_month chain as_of market_key ≡ ok (selected, basis)
          → IsFrontMonth selected basis chain)
        × ((e : InstrumentResolverError X)
            → select_front_month chain as_of market_key ≡ err e
            → NoneActive e chain)
  unfolding select_front_month
  select_front_month-first chain = (
    λ selected basis h.
        let (c, r, b, all) =
          first_active-front (sort_by_month chain) selected basis (sort-IsOrdered chain) h in
        (sort-Contains selected chain c, r, b, sort-All _ chain all),
    λ e h.
        let (same, all) = first_active-none (sort_by_month chain) e h in
        (same, sort-All _ chain all),
  )
