-- ===== src/RiskEngine/Sizing.antt =====
-- The request of crates/risk_engine/src/lib.rs, and how many contracts an entry gets.
use tv_bot_core.Base.{
  unwrap_or, ℕ, max, min, Bool, Option, none, some, String, Result, ok, ◌>>=◌, ◌>>◌, guard, ok_or,
  ltb, ◌==◌, not, if◌then◌else◌,
}
use tv_bot_core.External.{Externals}
use tv_bot_core.CoreTypes.{
  CompiledStrategy, ExecutionIntent, BrokerPositionSnapshot, PositionSizingMode,
}

pub record BrokerProtectionSupport : Type 0 where
  pub stop_loss : Bool
  pub take_profit : Bool
  pub trailing_stop : Bool
  pub daily_loss_limit : Bool

pub record RiskInstrumentContext (X : Externals) : Type 0 where
  pub tick_value_usd : Option X.Decimal

pub record RiskStateContext (X : Externals) : Type 0 where
  pub trades_today : ℕ  -- u32
  pub consecutive_losses : ℕ  -- u32
  pub current_position : Option (BrokerPositionSnapshot X)
  pub unrealized_pnl : Option X.Decimal
  pub broker_support : BrokerProtectionSupport
  pub hard_override_active : Bool

pub record RiskEvaluationRequest (X : Externals) : Type 0 where
  pub strategy : CompiledStrategy X
  pub instrument : RiskInstrumentContext X
  pub state : RiskStateContext X
  pub intent : ExecutionIntent

unfoldable pub validate_contract_bounds : Option ℕ → Option ℕ → Result String (Unit {0})
validate_contract_bounds (some lo) (some hi) =
    guard (not (ltb hi lo)) "position sizing min_contracts cannot be greater than max_contracts"
validate_contract_bounds _ _ = ok tt

abbrev raise_to : Option ℕ → ℕ → ℕ
raise_to none quantity = quantity
raise_to (some lo) quantity = max quantity lo

abbrev cap_at : Option ℕ → ℕ → ℕ
cap_at none quantity = quantity
cap_at (some hi) quantity = min quantity hi

unfoldable pub apply_contract_bounds : ℕ → Option ℕ → Option ℕ → ℕ
apply_contract_bounds quantity lo hi = cap_at hi (raise_to lo quantity)

abbrev pub requested_quantity : ExecutionIntent → ℕ
requested_quantity (ExecutionIntent.enter _ _ quantity _ _) = quantity
requested_quantity _ = 0

abbrev or_fallback : Option ℕ → ℕ → ℕ
or_fallback fallback computed = if computed == 0 then unwrap_or fallback 0 else computed

module _ (X : Externals) where
  open X use {Decimal, decimal_of_unsigned, decimal_mul, decimal_div, decimal_floor, decimal_to_u32}

  -- The whole contracts that the risk budget pays for.
  unfoldable pub computed_quantity : Decimal → ℕ → Decimal → ℕ
  computed_quantity max_risk_usd stop_ticks tick_value_usd =
      let risk_per_contract = decimal_mul (decimal_of_unsigned stop_ticks) tick_value_usd in
      unwrap_or (decimal_to_u32 (decimal_floor (decimal_div max_risk_usd risk_per_contract))) 0

module _ {X : Externals} where
  open X use {decimal_zero, decimal_le}

  unfoldable pub fixed_quantity : RiskEvaluationRequest X → Result String ℕ
  unfolding apply_contract_bounds
  fixed_quantity request = do
    let sizing = request.strategy.position_sizing
    let quantity = unwrap_or sizing.contracts (requested_quantity request.intent)
    guard (not (quantity == 0)) "fixed sizing requires a positive contract quantity"
    ok (apply_contract_bounds quantity sizing.min_contracts sizing.max_contracts)

  unfoldable pub risk_based_quantity : RiskEvaluationRequest X → Result String ℕ
  unfolding apply_contract_bounds computed_quantity
  risk_based_quantity request = do
    let sizing = request.strategy.position_sizing
    max_risk_usd ← ok_or sizing.max_risk_usd "risk-based sizing requires max_risk_usd"
    guard (not (decimal_le max_risk_usd decimal_zero))
        "risk-based sizing requires max_risk_usd to be greater than zero"
    let stop_ticks = request.strategy.trade_management.initial_stop_ticks
    guard (not (stop_ticks == 0)) "risk-based sizing requires a positive initial_stop_ticks"
    tick_value_usd ←
        ok_or request.instrument.tick_value_usd
          "risk-based sizing requires instrument tick_value_usd"
    guard (not (decimal_le tick_value_usd decimal_zero))
        "risk-based sizing requires tick_value_usd to be greater than zero"
    let computed = computed_quantity X max_risk_usd stop_ticks tick_value_usd
    let chosen = or_fallback sizing.fallback_fixed_contracts computed
    let quantity = apply_contract_bounds chosen sizing.min_contracts sizing.max_contracts
    guard (not (quantity == 0)) "risk-based sizing produced zero contracts"
    ok quantity

  abbrev quantity_for : PositionSizingMode → RiskEvaluationRequest X → Result String ℕ
  quantity_for PositionSizingMode.fixed request = fixed_quantity request
  quantity_for PositionSizingMode.risk_based request = risk_based_quantity request

  unfoldable pub resolve_entry_quantity : RiskEvaluationRequest X → Result String ℕ
  unfolding validate_contract_bounds fixed_quantity risk_based_quantity
  resolve_entry_quantity request = do
    let sizing = request.strategy.position_sizing
    validate_contract_bounds sizing.min_contracts sizing.max_contracts
    quantity_for sizing.mode request
