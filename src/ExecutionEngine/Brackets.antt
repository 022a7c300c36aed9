-- ===== src/ExecutionEngine/Brackets.antt =====
-- The protective brackets of a planned entry, and what the broker adapter checks of a plan.
use tv_bot_core.Base.{
  inl, inr, refl, ◌⊎◌, ◌⊎◌, ℕ, ◌≤◌, ◌<◌, ◌≡◌, Bool, true, some, List, [], ◌∷◌, ◌++◌, String, ok,
  ok_or, length, All, Contains, >>=-eq-ok, arith,
}
use mathlib.Core.Path.{subst}
use tv_bot_core.External.{Externals}
use tv_bot_core.CoreTypes.{ExecutionIntent, TradeSide, EntryOrderType, BrokerPreference}
use tv_bot_core.BrokerTradovate.Orders.{TradovateOsoOrderPlacement, TradovateBracketOrder}
use tv_bot_core.ExecutionEngine.Request.{
  ExecutionRequest, ExecutionAction, ExecutionPlan, opposite_side, validate_instrument,
}
use tv_bot_core.ExecutionEngine.Entry.{
  offset_price, translate_entry_order, build_protective_brackets, build_entry_oso, stop_bracket,
  profit_bracket, ensure_required_protection_configuration,
}
use tv_bot_core.ExecutionEngine.Planner.{entry_action, plan_tradovate, plan_intent}
use tv_bot_core.ExecutionEngine.Guards.{EntryParts, plan_entry-EntryParts}

module _ {X : Externals} (request : ExecutionRequest X) (side : TradeSide) where
  -- The brackets of an order: one or two, each closing exactly the order's quantity from the other
  -- side, with a stop and a profit target at the configured distances from the reference price.
  pub record IsProtective (order : TradovateOsoOrderPlacement X) (reference : X.Decimal)
      : Type 0 where
    pub closing :
        All
          (λ (b : TradovateBracketOrder X).
            (b.side ≡ opposite_side side) × (b.quantity ≡ some order.quantity))
          order.brackets
    pub some_bracket : 0 < length order.brackets
    pub few_brackets : length order.brackets ≤ 2
    pub stop :
        0 < request.strategy.trade_management.initial_stop_ticks
        → Contains
            (stop_bracket {X = X} (opposite_side side) order.quantity (
              offset_price X reference request.instrument.tick_size
                request.strategy.trade_management.initial_stop_ticks
                (opposite_side side)))
            order.brackets
    pub profit :
        0 < request.strategy.trade_management.take_profit_ticks
        → Contains
            (profit_bracket {X = X} (opposite_side side) order.quantity (
              offset_price X reference request.instrument.tick_size
                request.strategy.trade_management.take_profit_ticks side))
            order.brackets

  build_protective_brackets-IsProtective :
      (order : TradovateOsoOrderPlacement X) (reference : X.Decimal)
      → build_protective_brackets request.strategy side order.quantity request.instrument.tick_size
          reference
        ≡ ok order.brackets
      → IsProtective order reference
  unfolding build_protective_brackets
  build_protective_brackets-IsProtective order reference h = record {
    closing = ground arith;
    some_bracket = ground arith;
    few_brackets = ground arith;
    stop = ground arith;
    profit = ground arith;
  }

  build_entry_oso-IsProtective :
      (order_type : EntryOrderType) (m : ℕ) (reason : String) (order : TradovateOsoOrderPlacement X)
      → build_entry_oso request.strategy request.instrument side order_type m reason ≡ ok order
      → (reference : X.Decimal) × (request.instrument.entry_reference_price ≡ some reference)
        × (order.side ≡ side)
        × IsProtective order reference
  unfolding build_entry_oso
  build_entry_oso-IsProtective order_type m reason order h =
      let price = request.instrument.entry_reference_price in
      let (t, e₁, h₁) = >>=-eq-ok (translate_entry_order X order_type price) _ h in
      let (reference, e₂, h₂) = >>=-eq-ok (ok_or price _) _ h₁ in
      let (brackets, e₃, h₃) =
        >>=-eq-ok
          (build_protective_brackets request.strategy side m request.instrument.tick_size reference)
          _ h₂ in
      (
        reference,
        ground arith,
        ground arith,
        build_protective_brackets-IsProtective order reference (ground arith),
      )

  pub HasProtectiveEntry : ExecutionPlan X → Type 0
  HasProtectiveEntry plan =
      (before : List (ExecutionAction X)) × (order : TradovateOsoOrderPlacement X)
      × (reference : X.Decimal) × (plan.actions
          ≡ before ++ ExecutionAction.submit_oso_order order ∷ [])
      × (request.instrument.entry_reference_price ≡ some reference)
      × (order.side ≡ side)
      × IsProtective order reference

module _ {X : Externals} where
  -- What the plan holds of a protection, by the strategy's preference for it: an order that is
  -- required of the broker is among the brackets, at a distance that is not 0.
  abbrev pub Placed :
      BrokerPreference → ℕ → TradovateBracketOrder X → List (TradovateBracketOrder X) → Type 0
  Placed BrokerPreference.broker_required ticks bracket placed =
      (0 < ticks) × Contains bracket placed
  Placed _ ticks bracket placed = Unit {0}

  Placed_lem :
      (preference : BrokerPreference) (ticks : ℕ) (bracket : TradovateBracketOrder X)
      (placed : List (TradovateBracketOrder X))
      → (preference ≡ BrokerPreference.broker_required → 0 < ticks)
      → (0 < ticks → Contains bracket placed)
      → Placed preference ticks bracket placed
  Placed_lem BrokerPreference.broker_required ticks bracket placed h k = (h refl, k (h refl))
  Placed_lem BrokerPreference.broker_preferred ticks bracket placed h k = tt
  Placed_lem BrokerPreference.bot_allowed ticks bracket placed h k = tt

module _ {X : Externals} (request : ExecutionRequest X) (side : TradeSide) where
  abbrev pub HasRequired : ExecutionPlan X → Type 0
  HasRequired plan =
      (before : List (ExecutionAction X)) × (order : TradovateOsoOrderPlacement X)
      × (reference : X.Decimal) × (plan.actions
          ≡ before ++ ExecutionAction.submit_oso_order order ∷ [])
      × (request.instrument.entry_reference_price ≡ some reference)
      × (order.side ≡ side)
      × Placed request.strategy.execution.broker_preferences.stop_loss
          request.strategy.trade_management.initial_stop_ticks
          (stop_bracket {X = X} (opposite_side side) order.quantity (
            offset_price X reference request.instrument.tick_size
              request.strategy.trade_management.initial_stop_ticks (opposite_side side)))
          order.brackets
      × Placed request.strategy.execution.broker_preferences.take_profit
          request.strategy.trade_management.take_profit_ticks
          (profit_bracket {X = X} (opposite_side side) order.quantity (
            offset_price X reference request.instrument.tick_size
              request.strategy.trade_management.take_profit_ticks side))
          order.brackets

module _ {X : Externals} (request : ExecutionRequest X) (side : TradeSide)
    (order_type : EntryOrderType) (n : ℕ) (brackets : Bool) (reason : String)
    (plan : ExecutionPlan X)
    (entry : request.intent ≡ ExecutionIntent.enter side order_type n brackets reason)
    (planned : plan_tradovate request ≡ ok plan) where
  pub entry_parts : EntryParts request side order_type n brackets reason plan
  unfolding plan_tradovate
  entry_parts =
      let (_, e, h) = >>=-eq-ok (validate_instrument request.instrument) _ planned in
      plan_entry-EntryParts request side order_type n brackets reason plan
        (subst (λ i. plan_intent i request ≡ ok plan) entry h)

  -- An entry that is planned with protective brackets ends in one bracketed order, on the entry's
  -- side and with a known reference price; it has one or two brackets, each closing the whole
  -- order from the other side, and the configured stop and profit target are among them.
  pub plan_tradovate-HasProtectiveEntry : brackets ≡ true → HasProtectiveEntry request side plan
  unfolding entry_action HasProtectiveEntry
  plan_tradovate-HasProtectiveEntry expected =
      let parts = entry_parts in
      let built =
        subst (λ b. entry_action request side order_type parts.quantity b reason ≡ ok parts.action)
          expected parts.built in
      let (order, e, e') =
        >>=-eq-ok
          (build_entry_oso request.strategy request.instrument side order_type parts.quantity
            reason)
          _ built in
      let (reference, known, same, protective) =
        build_entry_oso-IsProtective request side order_type parts.quantity reason order e in
      (parts.before, order, reference, ground (arith, parts.whole), known, same, protective)

  -- The configured ticks of what must be placed with the broker are not 0.
  required_ticks :
      (request.strategy.execution.broker_preferences.stop_loss ≡ BrokerPreference.broker_required
        → (brackets ≡ true) × (0 < request.strategy.trade_management.initial_stop_ticks))
      × (request.strategy.execution.broker_preferences.take_profit
            ≡ BrokerPreference.broker_required
          → (brackets ≡ true) × (0 < request.strategy.trade_management.take_profit_ticks))
  unfolding ensure_required_protection_configuration
  required_ticks = ground (arith, entry_parts.configured)

  expected_if_required :
      (request.strategy.execution.broker_preferences.stop_loss ≡ BrokerPreference.broker_required)
        ⊎ (request.strategy.execution.broker_preferences.take_profit
            ≡ BrokerPreference.broker_required)
      → brackets ≡ true
  expected_if_required (inl stop) = (required_ticks.0 stop).0
  expected_if_required (inr profit) = (required_ticks.1 profit).0

  -- Where the strategy requires a stop or a profit target of the broker, a planned entry ends in one
  -- bracketed order on the entry's side, with a known reference price. Each of the two that is
  -- required is among its brackets, closes the whole order from the other side, and stands at the
  -- configured distance, which is not 0.
  pub plan_tradovate-required :
      (request.strategy.execution.broker_preferences.stop_loss ≡ BrokerPreference.broker_required)
        ⊎ (request.strategy.execution.broker_preferences.take_profit
            ≡ BrokerPreference.broker_required)
      → HasRequired request side plan
  unfolding HasProtectiveEntry
  plan_tradovate-required required =
      let (before, order, reference, whole, known, same, protective) =
        plan_tradovate-HasProtectiveEntry (expected_if_required required) in
      (
        before,
        order,
        reference,
        whole,
        known,
        same,
        Placed_lem _ _ _ _ (λ e. (required_ticks.0 e).1) protective.stop,
        Placed_lem _ _ _ _ (λ e. (required_ticks.1 e).1) protective.profit,
      )
