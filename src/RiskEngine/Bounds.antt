-- ===== src/RiskEngine/Bounds.antt =====
-- The contract bounds that an approved entry quantity keeps.
use tv_bot_core.Base.{ℕ, ◌≤◌, ◌<◌, ◌≡◌, ◌⊎◌, Option, none, some, ok, arith}
use tv_bot_core.External.{Externals}
use tv_bot_core.CoreTypes.{PositionSizingMode}
use tv_bot_core.RiskEngine.Sizing.{
  RiskEvaluationRequest, apply_contract_bounds, validate_contract_bounds, resolve_entry_quantity,
}

abbrev pub AtLeast : Option ℕ → ℕ → Type 0
AtLeast none q = Unit
AtLeast (some lo) q = lo ≤ q

abbrev pub AtMost : Option ℕ → ℕ → Type 0
AtMost none q = Unit
AtMost (some hi) q = q ≤ hi

bounds_hold :
    (n : ℕ) (lo hi : Option ℕ)
    → validate_contract_bounds lo hi ≡ ok tt
    → AtLeast lo (apply_contract_bounds n lo hi) × AtMost hi (apply_contract_bounds n lo hi)
unfolding validate_contract_bounds apply_contract_bounds
bounds_hold n none none h = omega arith
bounds_hold n (some lo) none h = omega arith
bounds_hold n none (some hi) h = omega arith
bounds_hold n (some lo) (some hi) h = ground arith

module _ {X : Externals} (request : RiskEvaluationRequest X) where
  abbrev pub PositiveUnless : ℕ → Type 0
  PositiveUnless q =
      (0 < q)
      ⊎ (request.strategy.position_sizing.mode ≡ PositionSizingMode.fixed)
        × (request.strategy.position_sizing.max_contracts ≡ some 0)

  -- An approved quantity lies within the configured bounds, and it is positive unless sizing is
  -- fixed and the configured maximum is 0.
  pub resolve_entry_quantity_bounds :
      (q : ℕ)
      → resolve_entry_quantity request ≡ ok q
      → AtLeast request.strategy.position_sizing.min_contracts q
        × AtMost request.strategy.position_sizing.max_contracts q
        × PositiveUnless q
  unfolding resolve_entry_quantity
  resolve_entry_quantity_bounds q h = ground arith
