-- ===== src/Indicators/Extremes.antt =====
-- What the extremes of crates/indicators/src/lib.rs are.
use tv_bot_core.Base.{
  if_false, if_true, ℕ, ◌≡◌, ◌⊎◌, inl, inr, refl, true, List, [], ◌∷◌, ok, All, Bool-cases,
  >>=-eq-ok, ok_injective,
}
use mathlib.Core.Path.{subst, sym}
use tv_bot_core.External.{Externals, DecimalOrder}
use tv_bot_core.Indicators.{
  BarInput, validate_series, last_bars, max_by, min_by, extreme, highest_high, lowest_low,
}

later {ℓ κ μ} : {P : Type ℓ} {Q : Type κ} {R : Type μ} → P ⊎ R → P ⊎ (Q ⊎ R)
later (inl p) = inl p
later (inr r) = inr (inr r)

module _ {X : Externals} where
  -- `value` is the field of one of the bars.
  abbrev pub IsFieldOf : (BarInput X → X.Decimal) → X.Decimal → List (BarInput X) → Type 0
  IsFieldOf field value [] = ⊥
  IsFieldOf field value (bar ∷ bars) = (value ≡ field bar) ⊎ IsFieldOf field value bars

module _ {X : Externals} (order : DecimalOrder X) where
  open X use {Decimal, decimal_le}

  le_refl : (a : Decimal) → decimal_le a a ≡ true
  le_refl a = elim (Bool-cases (decimal_le a a)) [ inl e ↦ e | inr e ↦ order.le_total a a e ]

  abbrev Greatest : (BarInput X → Decimal) → Decimal → List (BarInput X) → Decimal → Type 0
  Greatest field best bars value =
      (decimal_le best value ≡ true)
      × All (λ b. decimal_le (field b) value ≡ true) bars
      × ((value ≡ best) ⊎ IsFieldOf field value bars)

  max_by-Greatest :
      (field : BarInput X → Decimal) (best : Decimal) (bars : List (BarInput X))
      → Greatest field best bars (max_by X field best bars)
  max_by-Greatest field best [] = (le_refl best, tt, inl refl)
  max_by-Greatest field best (bar ∷ bars) = elim (Bool-cases (decimal_le best (field bar))) [
    | inl e ↦
        let (le, all, one) = max_by-Greatest field (field bar) bars in
        subst (λ b. Greatest field best (bar ∷ bars) (max_by X field b bars)) (sym (if_true _ _ e))
          (order.le_trans best (field bar) _ e le, (le, all), inr one)
    | inr e ↦
        let (le, all, one) = max_by-Greatest field best bars in
        let le' = order.le_total best (field bar) e in
        subst (λ b. Greatest field best (bar ∷ bars) (max_by X field b bars)) (sym (if_false _ _ e))
          (le, (order.le_trans (field bar) best _ le' le, all), later one)
  ]

  abbrev Least : (BarInput X → Decimal) → Decimal → List (BarInput X) → Decimal → Type 0
  Least field best bars value =
      (decimal_le value best ≡ true)
      × All (λ b. decimal_le value (field b) ≡ true) bars
      × ((value ≡ best) ⊎ IsFieldOf field value bars)

  min_by-Least :
      (field : BarInput X → Decimal) (best : Decimal) (bars : List (BarInput X))
      → Least field best bars (min_by X field best bars)
  min_by-Least field best [] = (le_refl best, tt, inl refl)
  min_by-Least field best (bar ∷ bars) = elim (Bool-cases (decimal_le best (field bar))) [
    | inl e ↦
        let (le, all, one) = min_by-Least field best bars in
        subst (λ b. Least field best (bar ∷ bars) (min_by X field b bars)) (sym (if_true _ _ e))
          (le, (order.le_trans _ best (field bar) le e, all), later one)
    | inr e ↦
        let (le, all, one) = min_by-Least field (field bar) bars in
        let le' = order.le_total best (field bar) e in
        subst (λ b. Least field best (bar ∷ bars) (min_by X field b bars)) (sym (if_false _ _ e))
          (order.le_trans _ (field bar) best le le', (le, all), inr one)
  ]

  greatest :
      (field : BarInput X → Decimal) (bars : List (BarInput X)) (value : Decimal)
      → extreme X (max_by X) field bars ≡ ok value
      → IsFieldOf field value bars × All (λ b. decimal_le (field b) value ≡ true) bars
  greatest field [] value h = cc
  greatest field (bar ∷ bars) value h =
      let (le, all, one) = max_by-Greatest field (field bar) bars in
      subst
        (λ v.
          IsFieldOf field v (bar ∷ bars) × All (λ b. decimal_le (field b) v ≡ true) (bar ∷ bars))
        (ok_injective refl h) (one, (le, all))

  least :
      (field : BarInput X → Decimal) (bars : List (BarInput X)) (value : Decimal)
      → extreme X (min_by X) field bars ≡ ok value
      → IsFieldOf field value bars × All (λ b. decimal_le value (field b) ≡ true) bars
  least field [] value h = cc
  least field (bar ∷ bars) value h =
      let (le, all, one) = min_by-Least field (field bar) bars in
      subst
        (λ v.
          IsFieldOf field v (bar ∷ bars) × All (λ b. decimal_le v (field b) ≡ true) (bar ∷ bars))
        (ok_injective refl h) (one, (le, all))

  -- A highest high that is returned is the high of one of the last bars, and none of their highs is
  -- above it; a lowest low is the low of one of them, and none of their lows is below it.
  pub extremes_lem :
      (bars : List (BarInput X)) (n : ℕ) (value : Decimal)
      → (highest_high X bars n ≡ ok value
          → IsFieldOf (λ b. b.high) value (last_bars bars n)
            × All (λ b. decimal_le b.high value ≡ true) (last_bars bars n))
        × (lowest_low X bars n ≡ ok value
            → IsFieldOf (λ b. b.low) value (last_bars bars n)
              × All (λ b. decimal_le value b.low ≡ true) (last_bars bars n))
  unfolding highest_high lowest_low
  extremes_lem bars n value = (
    λ h.
        greatest (λ b. b.high) (last_bars bars n) value
          (>>=-eq-ok (validate_series bars n)
            (λ _. extreme X (max_by X) (λ b. b.high) (last_bars bars n)) h).2,
    λ h.
        least (λ b. b.low) (last_bars bars n) value
          (>>=-eq-ok (validate_series bars n)
            (λ _. extreme X (min_by X) (λ b. b.low) (last_bars bars n)) h).2,
  )
