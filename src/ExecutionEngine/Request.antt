-- ===== src/ExecutionEngine/Request.antt =====
-- The request, the plan and the errors of crates/execution_engine/src/lib.rs, and its helpers.
use tv_bot_core.Base.{
  ℕ, ℤ, Bool, Option, none, some, List, String, Result, guard, not, leb_ℤ, pos, is_nonzero,
  if◌then◌else◌, is_empty, trim, take_chars, strip_prefix, parse_i64,
}
use tv_bot_core.Base.Text
use tv_bot_core.External.{Externals}
use tv_bot_core.CoreTypes.{
  CompiledStrategy, ExecutionIntent, BrokerPositionSnapshot, BrokerOrderUpdate, EntryOrderType,
  TradeSide,
}
use tv_bot_core.BrokerTradovate.Orders.{TradovateOrderPlacement, TradovateOsoOrderPlacement}

pub record ExecutionInstrumentContext (X : Externals) : Type 0 where
  pub tradovate_symbol : String
  pub tick_size : X.Decimal
  pub entry_reference_price : Option X.Decimal
  pub active_contract_id : Option ℤ

pub record ExecutionStateContext (X : Externals) : Type 0 where
  pub runtime_can_submit_orders : Bool
  pub new_entries_allowed : Bool
  pub current_position : Option (BrokerPositionSnapshot X)
  pub working_orders : List (BrokerOrderUpdate X)

pub record ExecutionRequest (X : Externals) : Type 0 where
  pub strategy : CompiledStrategy X
  pub instrument : ExecutionInstrumentContext X
  pub state : ExecutionStateContext X
  pub intent : ExecutionIntent

pub data ExecutionAction (X : Externals) : Type 0 where
  submit_order : TradovateOrderPlacement X → ExecutionAction X
  submit_oso_order : TradovateOsoOrderPlacement X → ExecutionAction X
  cancel_order : (order_id : ℤ) (symbol reason : String) → ExecutionAction X
  liquidate_position :
      (contract_id : ℤ) (reason : String) (custom_tag_50 : Option String) → ExecutionAction X
  pause_strategy : (reason : String) → ExecutionAction X

pub record ExecutionPlan (X : Externals) : Type 0 where
  pub actions : List (ExecutionAction X)
  pub warnings : List String

pub data ExecutionEngineError : Type 0 where
  order_placement_blocked new_entries_blocked invalid_tick_size : ExecutionEngineError
  invalid_entry_quantity invalid_reduction_quantity : ExecutionEngineError
  missing_entry_reference_price missing_protective_reference_price : ExecutionEngineError
  missing_open_position : (intent : String) → ExecutionEngineError
  missing_contract_id : (intent : String) → ExecutionEngineError
  missing_working_orders : (symbol : String) → ExecutionEngineError
  invalid_working_order_id : (broker_order_id : String) → ExecutionEngineError
  unsupported_entry_order_type : (order_type : EntryOrderType) → ExecutionEngineError
  scale_in_disabled scale_in_max_legs_reached : ExecutionEngineError
  unsupported_intent : (intent : String) → ExecutionEngineError
  unsupported_broker_required_feature : (feature : String) → ExecutionEngineError
  missing_required_protective_bracket : ExecutionEngineError

unfoldable pub truncate_tag : String → ℕ → String
truncate_tag value max_len = take_chars max_len value

unfoldable pub order_text : String → Option String
unfolding truncate_tag
order_text reason =
    let trimmed = trim reason in
    if Text.is_empty trimmed then none else some (truncate_tag trimmed 64)

unfoldable pub strategy_tag : String → Option String
unfolding truncate_tag
strategy_tag strategy_id =
    let trimmed = trim strategy_id in
    if Text.is_empty trimmed then none else some (truncate_tag trimmed 64)

abbrev pub side_for_position : ℤ → TradeSide
side_for_position quantity = if leb_ℤ (pos 0) quantity then TradeSide.buy else TradeSide.sell

abbrev pub opposite_side : TradeSide → TradeSide
opposite_side TradeSide.buy = TradeSide.sell
opposite_side TradeSide.sell = TradeSide.buy

abbrev parsed_contract : Option String → Option ℤ
parsed_contract none = none
parsed_contract (some contract_id) = parse_i64 contract_id

module _ {X : Externals} where
  open X use {Decimal, decimal_zero, decimal_le}

  abbrev pub is_noop : ExecutionPlan X → Bool
  is_noop plan = is_empty plan.actions

  unfoldable pub ensure_order_placement_allowed :
      ExecutionRequest X → Result ExecutionEngineError (Unit {0})
  ensure_order_placement_allowed request =
      guard request.state.runtime_can_submit_orders ExecutionEngineError.order_placement_blocked

  unfoldable pub validate_instrument :
      ExecutionInstrumentContext X → Result ExecutionEngineError (Unit {0})
  validate_instrument instrument =
      guard (not (decimal_le instrument.tick_size decimal_zero))
        ExecutionEngineError.invalid_tick_size

  unfoldable pub active_position :
      Option (BrokerPositionSnapshot X) → Option (BrokerPositionSnapshot X)
  active_position none = none
  active_position (some position) = if is_nonzero position.quantity then some position else none

  abbrev position_contract : Option (BrokerPositionSnapshot X) → Option ℤ
  position_contract none = none
  position_contract (some position) = parsed_contract (strip_prefix "contract:" position.symbol)

  abbrev or_position : Option ℤ → Option (BrokerPositionSnapshot X) → Option ℤ
  or_position (some contract_id) position = some contract_id
  or_position none position = position_contract position

  unfoldable pub resolve_contract_id :
      ExecutionInstrumentContext X → Option (BrokerPositionSnapshot X) → Option ℤ
  resolve_contract_id instrument position = or_position instrument.active_contract_id position

  abbrev pub plan_of : List (ExecutionAction X) → List String → ExecutionPlan X
  plan_of actions warnings = record { actions = actions; warnings = warnings }
