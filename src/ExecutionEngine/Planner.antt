-- ===== src/ExecutionEngine/Planner.antt =====
-- `ExecutionPlanner::plan_tradovate` of crates/execution_engine/src/lib.rs.
use tv_bot_core.Base.{
  ℕ, ◌+◌, min, Bool, true, false, Option, none, some, List, [], ◌∷◌, ◌++◌, String, Result, ok,
  ◌>>=◌, ◌>>◌, guard, ok_or, not, leb, ◌==◌, ◌&&◌, is_empty, if◌then◌else◌, unsigned_abs, keep,
  eq_ignore_ascii_case, parse_i64, format, ℤ,
}
use tv_bot_core.External.{Externals}
use tv_bot_core.CoreTypes.{
  ExecutionIntent, EntryOrderType, TradeSide, ReversalMode, BrokerPositionSnapshot,
  BrokerOrderUpdate, side_eq, is_working,
}
use tv_bot_core.BrokerTradovate.Orders.{TradovateOrderType, TradovateTimeInForce}
use tv_bot_core.ExecutionEngine.Request.{
  ExecutionRequest, ExecutionAction, ExecutionPlan, ExecutionEngineError, plan_of,
  ensure_order_placement_allowed, validate_instrument, active_position, resolve_contract_id,
  side_for_position, opposite_side, order_text, strategy_tag,
}
use tv_bot_core.ExecutionEngine.Entry.{
  assess_trade_management_support, ensure_required_protection_configuration, build_entry_order,
  build_entry_oso,
}

abbrev pub u32_max : ℕ
u32_max = 4294967295

-- `u32::saturating_add`
abbrev pub saturating_add : ℕ → ℕ → ℕ
saturating_add a b = min (a + b) u32_max

-- The liquidation before an entry, if any, and the quantity of the entry.
abbrev pub Opening : Externals → Type 0
Opening X = List (ExecutionAction X) × ℕ

module _ {X : Externals} where
  -- An entry on the side of the open position.
  unfoldable pub plan_scale_in :
      ExecutionRequest X → BrokerPositionSnapshot X → ℕ → Result ExecutionEngineError (Opening X)
  plan_scale_in request position quantity = do
    let scaling = request.strategy.execution.scaling
    guard scaling.allow_scale_in ExecutionEngineError.scale_in_disabled
    guard (not (leb scaling.max_legs (unsigned_abs position.quantity)))
        ExecutionEngineError.scale_in_max_legs_reached
    ok ([], quantity)

  -- An entry against the open position.
  unfoldable pub plan_reversal :
      ReversalMode
      → ExecutionRequest X
      → BrokerPositionSnapshot X
      → ℕ
      → String
      → Result ExecutionEngineError (Opening X)
  plan_reversal ReversalMode.flatten_first request position quantity reason = do
    contract_id ←
        ok_or (resolve_contract_id request.instrument request.state.current_position)
          (ExecutionEngineError.missing_contract_id "flatten_first_reversal")
    ok (
      ExecutionAction.liquidate_position contract_id
            (format ("flatten-first reversal: " ∷ reason ∷ []))
            (strategy_tag request.strategy.metadata.strategy_id)
          ∷ [],
      quantity,
    )
  plan_reversal ReversalMode.direct_reverse request position quantity reason =
      ok ([], saturating_add quantity (unsigned_abs position.quantity))

  -- What the open position asks of an entry.
  unfoldable pub plan_opening :
      ExecutionRequest X
      → TradeSide
      → ℕ
      → String
      → Option (BrokerPositionSnapshot X)
      → Result ExecutionEngineError (Opening X)
  unfolding plan_scale_in plan_reversal
  plan_opening request side quantity reason none = ok ([], quantity)
  plan_opening request side quantity reason (some position) =
      if side_eq (side_for_position position.quantity) side
      then plan_scale_in request position quantity
      else plan_reversal request.strategy.execution.reversal_mode request position quantity reason

  unfoldable pub entry_action :
      ExecutionRequest X
      → TradeSide
      → EntryOrderType
      → ℕ
      → Bool
      → String
      → Result ExecutionEngineError (ExecutionAction X)
  unfolding build_entry_oso build_entry_order
  entry_action request side order_type quantity true reason = do
    order ← build_entry_oso request.strategy request.instrument side order_type quantity reason
    ok (ExecutionAction.submit_oso_order order)
  entry_action request side order_type quantity false reason = do
    order ← build_entry_order request.strategy request.instrument side order_type quantity reason
    ok (ExecutionAction.submit_order order)

  unfoldable pub plan_entry :
      ExecutionRequest X
      → TradeSide
      → EntryOrderType
      → ℕ
      → Bool
      → String
      → Result ExecutionEngineError (ExecutionPlan X)
  unfolding ensure_order_placement_allowed
  plan_entry request side order_type quantity brackets_expected reason = do
    ensure_order_placement_allowed request
    guard request.state.new_entries_allowed ExecutionEngineError.new_entries_blocked
    guard (not (quantity == 0)) ExecutionEngineError.invalid_entry_quantity
    warnings ← assess_trade_management_support request.strategy []
    ensure_required_protection_configuration request.strategy brackets_expected
    (actions, effective_quantity) ←
        plan_opening request side quantity reason (active_position request.state.current_position)
    action ← entry_action request side order_type effective_quantity brackets_expected reason
    ok (plan_of (actions ++ action ∷ []) warnings)

  liquidation : ExecutionRequest X → String → ℤ → ExecutionPlan X
  liquidation request reason contract_id =
      plan_of
        (ExecutionAction.liquidate_position contract_id reason
            (strategy_tag request.strategy.metadata.strategy_id)
          ∷ [])
        []

  abbrev flatten_position :
      ExecutionRequest X
      → String
      → String
      → Option (BrokerPositionSnapshot X)
      → Result ExecutionEngineError (ExecutionPlan X)
  flatten_position request reason intent_label none =
      ok (plan_of [] ("flatten requested while no broker position is open" ∷ []))
  flatten_position request reason intent_label (some position) = do
    contract_id ←
        ok_or (resolve_contract_id request.instrument request.state.current_position)
          (ExecutionEngineError.missing_contract_id intent_label)
    ok (liquidation request reason contract_id)

  unfoldable pub plan_flatten :
      ExecutionRequest X → String → String → Result ExecutionEngineError (ExecutionPlan X)
  unfolding liquidation
  plan_flatten request reason intent_label =
      flatten_position request reason intent_label (active_position request.state.current_position)

  unfoldable pub reduction :
      ExecutionRequest X → BrokerPositionSnapshot X → ℕ → String → ExecutionAction X
  reduction request position quantity reason = ExecutionAction.submit_order (record {
    symbol = request.instrument.tradovate_symbol;
    side = opposite_side (side_for_position position.quantity);
    quantity = quantity;
    order_type = TradovateOrderType.market;
    limit_price = none;
    stop_price = none;
    time_in_force = some TradovateTimeInForce.day;
    expire_time = none;
    text = order_text reason;
    activation_time = none;
    custom_tag_50 = strategy_tag request.strategy.metadata.strategy_id;
    is_automated = true;
  })

  unfoldable pub plan_reduce_position :
      ExecutionRequest X → ℕ → String → Result ExecutionEngineError (ExecutionPlan X)
  unfolding ensure_order_placement_allowed plan_flatten reduction
  plan_reduce_position request quantity reason = do
    ensure_order_placement_allowed request
    guard (not (quantity == 0)) ExecutionEngineError.invalid_reduction_quantity
    position ←
        ok_or (active_position request.state.current_position)
          (ExecutionEngineError.missing_open_position "reduce_position")
    if leb (unsigned_abs position.quantity) quantity
        then plan_flatten request reason "reduce_position"
        else ok (plan_of (reduction request position quantity reason ∷ []) [])

  -- A working order of the instrument's symbol.
  abbrev pub is_cancellable : ExecutionRequest X → BrokerOrderUpdate X → Bool
  is_cancellable request order =
      eq_ignore_ascii_case order.symbol request.instrument.tradovate_symbol
      && is_working order.status

  -- The `map` and `collect` over the orders that are kept.
  unfoldable pub cancellations :
      String → List (BrokerOrderUpdate X) → Result ExecutionEngineError (List (ExecutionAction X))
  cancellations reason [] = ok []
  cancellations reason (order ∷ orders) = do
    order_id ←
        ok_or (parse_i64 order.broker_order_id)
          (ExecutionEngineError.invalid_working_order_id order.broker_order_id)
    rest ← cancellations reason orders
    ok (ExecutionAction.cancel_order order_id order.symbol reason ∷ rest)

  unfoldable pub plan_cancel_working_orders :
      ExecutionRequest X → String → Result ExecutionEngineError (ExecutionPlan X)
  unfolding cancellations
  plan_cancel_working_orders request reason = do
    actions ← cancellations reason (keep (is_cancellable request) request.state.working_orders)
    guard (not (is_empty actions))
        (ExecutionEngineError.missing_working_orders request.instrument.tradovate_symbol)
    ok (plan_of actions [])

  abbrev pub plan_intent :
      ExecutionIntent → ExecutionRequest X → Result ExecutionEngineError (ExecutionPlan X)
  plan_intent (ExecutionIntent.enter side order_type quantity brackets reason) request =
      plan_entry request side order_type quantity brackets reason
  plan_intent (ExecutionIntent.exit reason) request = plan_flatten request reason "flatten"
  plan_intent (ExecutionIntent.flatten reason) request = plan_flatten request reason "flatten"
  plan_intent (ExecutionIntent.reduce_position quantity reason) request =
      plan_reduce_position request quantity reason
  plan_intent (ExecutionIntent.pause_strategy reason) request =
      ok (plan_of (ExecutionAction.pause_strategy reason ∷ []) [])
  plan_intent (ExecutionIntent.cancel_working_orders reason) request =
      plan_cancel_working_orders request reason

  unfoldable pub plan_tradovate : ExecutionRequest X → Result ExecutionEngineError (ExecutionPlan X)
  unfolding plan_entry plan_flatten plan_reduce_position plan_cancel_working_orders
  plan_tradovate request = do
    validate_instrument request.instrument
    plan_intent request.intent request
