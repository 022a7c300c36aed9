-- ===== src/ExecutionEngine/Entry.antt =====
-- The parts of an entry in crates/execution_engine/src/lib.rs: the protection checks, the order
-- and its protective brackets.
use tv_bot_core.Base.{
  ℕ, Bool, true, false, Option, none, some, List, [], ◌∷◌, ◌++◌, String, Result, ok, err, ◌>>=◌,
  ◌>>◌, guard, ok_or, not, ltb, ◌==◌, ◌&&◌, ◌||◌, is_empty, take, if◌then◌else◌,
}
use tv_bot_core.External.{Externals}
use tv_bot_core.CoreTypes.{
  CompiledStrategy, EntryOrderType, TradeSide, BreakEvenRule, PartialTakeProfitRule,
  is_broker_required, trailing_enabled,
}
use tv_bot_core.BrokerTradovate.Orders.{
  TradovateOrderType, TradovateTimeInForce, TradovateOrderPlacement, TradovateOsoOrderPlacement,
  TradovateBracketOrder,
}
use tv_bot_core.ExecutionEngine.Request.{
  ExecutionInstrumentContext, ExecutionEngineError, order_text, strategy_tag, opposite_side,
}

abbrev partial_targets : Option PartialTakeProfitRule → Bool
partial_targets none = false
partial_targets (some rule) = rule.enabled && not (is_empty rule.targets)

abbrev break_even_enabled : Option BreakEvenRule → Bool
break_even_enabled none = false
break_even_enabled (some rule) = rule.enabled

module _ {X : Externals} where
  -- The warnings that the source pushes are returned.
  unfoldable pub assess_trade_management_support :
      CompiledStrategy X → List String → Result ExecutionEngineError (List String)
  assess_trade_management_support strategy warnings = do
    let management = strategy.trade_management
    guard (not (partial_targets management.partial_take_profit))
        (ExecutionEngineError.unsupported_broker_required_feature "partial_take_profit")
    let warned =
        if break_even_enabled management.break_even
        then warnings
          ++ "break-even stop adjustments are not yet translated into broker-native modify flows"
            ∷ []
        else warnings
    let trailing = trailing_enabled management.trailing
    guard (not (trailing && is_broker_required strategy.execution.broker_preferences.trailing_stop))
        (ExecutionEngineError.unsupported_broker_required_feature "trailing_stop")
    ok (
        if trailing
        then warned
          ++ "trailing-stop management is not yet translated into broker-native execution flows"
            ∷ []
        else warned)

  unfoldable pub ensure_required_protection_configuration :
      CompiledStrategy X → Bool → Result ExecutionEngineError (Unit {0})
  ensure_required_protection_configuration strategy expected = do
    let preferences = strategy.execution.broker_preferences
    let management = strategy.trade_management
    let stop_required = is_broker_required preferences.stop_loss
    let take_profit_required = is_broker_required preferences.take_profit
    guard (not ((stop_required || take_profit_required) && not expected))
        ExecutionEngineError.missing_required_protective_bracket
    guard (not (stop_required && management.initial_stop_ticks == 0))
        ExecutionEngineError.missing_required_protective_bracket
    guard (not (take_profit_required && management.take_profit_ticks == 0))
        ExecutionEngineError.missing_required_protective_bracket
    ok tt

module _ (X : Externals) where
  open X use {Decimal, decimal_of_unsigned, decimal_add, decimal_sub, decimal_mul}

  unfoldable pub offset_price : Decimal → Decimal → ℕ → TradeSide → Decimal
  offset_price reference_price tick_size ticks TradeSide.buy =
      decimal_add reference_price (decimal_mul tick_size (decimal_of_unsigned ticks))
  offset_price reference_price tick_size ticks TradeSide.sell =
      decimal_sub reference_price (decimal_mul tick_size (decimal_of_unsigned ticks))

  -- The broker's order type with the limit and the stop price.
  abbrev pub Translation : Type 0
  Translation = TradovateOrderType × Option Decimal × Option Decimal

  unfoldable pub translate_entry_order :
      EntryOrderType → Option Decimal → Result ExecutionEngineError Translation
  translate_entry_order EntryOrderType.market reference = ok (TradovateOrderType.market, none, none)
  translate_entry_order EntryOrderType.limit reference = do
    price ← ok_or reference ExecutionEngineError.missing_entry_reference_price
    ok (TradovateOrderType.limit, some price, none)
  translate_entry_order EntryOrderType.stop reference = do
    price ← ok_or reference ExecutionEngineError.missing_entry_reference_price
    ok (TradovateOrderType.stop, none, some price)
  translate_entry_order EntryOrderType.stop_limit reference =
      err (ExecutionEngineError.unsupported_entry_order_type EntryOrderType.stop_limit)

module _ {X : Externals} where
  open X use {Decimal}

  abbrev pub stop_bracket : TradeSide → ℕ → Decimal → TradovateBracketOrder X
  stop_bracket side quantity price = record {
    side = side;
    quantity = some quantity;
    order_type = TradovateOrderType.stop;
    limit_price = none;
    stop_price = some price;
    time_in_force = some TradovateTimeInForce.gtc;
    expire_time = none;
    text = some "stop_loss";
    activation_time = none;
    custom_tag_50 = none;
  }

  abbrev pub profit_bracket : TradeSide → ℕ → Decimal → TradovateBracketOrder X
  profit_bracket side quantity price = record {
    side = side;
    quantity = some quantity;
    order_type = TradovateOrderType.limit;
    limit_price = some price;
    stop_price = none;
    time_in_force = some TradovateTimeInForce.gtc;
    expire_time = none;
    text = some "take_profit";
    activation_time = none;
    custom_tag_50 = none;
  }

  unfoldable pub build_protective_brackets :
      CompiledStrategy X
      → TradeSide
      → ℕ
      → Decimal
      → Decimal
      → Result ExecutionEngineError (List (TradovateBracketOrder X))
  unfolding offset_price
  build_protective_brackets strategy side quantity tick_size reference_price =
      let management = strategy.trade_management in
      let exit_side = opposite_side side in
      let stops : List (TradovateBracketOrder X) =
        if ltb 0 management.initial_stop_ticks
        then stop_bracket exit_side quantity
            (offset_price X reference_price tick_size management.initial_stop_ticks exit_side)
          ∷ []
        else [] in
      let profits : List (TradovateBracketOrder X) =
        if ltb 0 management.take_profit_ticks
        then profit_bracket exit_side quantity
            (offset_price X reference_price tick_size management.take_profit_ticks side)
          ∷ []
        else [] in
      let brackets = stops ++ profits in
      if is_empty brackets
      then err ExecutionEngineError.missing_required_protective_bracket
      else ok (take 2 brackets)

  unfoldable pub build_entry_order :
      CompiledStrategy X
      → ExecutionInstrumentContext X
      → TradeSide
      → EntryOrderType
      → ℕ
      → String
      → Result ExecutionEngineError (TradovateOrderPlacement X)
  unfolding translate_entry_order
  build_entry_order strategy instrument side order_type quantity reason = do
    (broker_type, limit_price, stop_price) ←
        translate_entry_order X order_type instrument.entry_reference_price
    ok (record {
      symbol = instrument.tradovate_symbol;
      side = side;
      quantity = quantity;
      order_type = broker_type;
      limit_price = limit_price;
      stop_price = stop_price;
      time_in_force = some TradovateTimeInForce.day;
      expire_time = none;
      text = order_text reason;
      activation_time = none;
      custom_tag_50 = strategy_tag strategy.metadata.strategy_id;
      is_automated = true;
    })

  unfoldable pub build_entry_oso :
      CompiledStrategy X
      → ExecutionInstrumentContext X
      → TradeSide
      → EntryOrderType
      → ℕ
      → String
      → Result ExecutionEngineError (TradovateOsoOrderPlacement X)
  unfolding translate_entry_order build_protective_brackets
  build_entry_oso strategy instrument side order_type quantity reason = do
    (broker_type, limit_price, stop_price) ←
        translate_entry_order X order_type instrument.entry_reference_price
    reference_price ←
        ok_or instrument.entry_reference_price
          ExecutionEngineError.missing_protective_reference_price
    brackets ← build_protective_brackets strategy side quantity instrument.tick_size reference_price
    ok (record {
      symbol = instrument.tradovate_symbol;
      side = side;
      quantity = quantity;
      order_type = broker_type;
      limit_price = limit_price;
      stop_price = stop_price;
      time_in_force = some TradovateTimeInForce.day;
      expire_time = none;
      text = order_text reason;
      activation_time = none;
      custom_tag_50 = strategy_tag strategy.metadata.strategy_id;
      is_automated = true;
      brackets = brackets;
    })
