-- ===== src/ExecutionEngine/Accepted.antt =====
-- The broker adapter's checks of a plan: crates/broker_tradovate/src/execution.rs.
use tv_bot_core.Base.{
  ℕ, ◌≡◌, ◌≢◌, Bool, true, false, List, [], ◌∷◌, String, ok, All, All-append, >>=-eq-ok, arith,
  trim, keep, ok_or, parse_i64,
}
use tv_bot_core.Base.Text
use tv_bot_core.External.{Externals}
use tv_bot_core.CoreTypes.{ExecutionIntent, TradeSide, EntryOrderType, BrokerOrderUpdate}
use tv_bot_core.BrokerTradovate.Orders.{validate_order, validate_oso}
use tv_bot_core.ExecutionEngine.Request.{
  ExecutionRequest, ExecutionAction, ExecutionPlan, validate_instrument, active_position,
}
use tv_bot_core.ExecutionEngine.Planner.{
  plan_opening, entry_action, plan_flatten, plan_reduce_position, cancellations, is_cancellable,
  plan_cancel_working_orders, plan_tradovate, plan_intent,
}
use tv_bot_core.ExecutionEngine.Guards.{plan_entry-EntryParts}

abbrev pub IsAccepted : {X : Externals} → ExecutionAction X → Type 0
IsAccepted (ExecutionAction.submit_order order) = validate_order order ≡ ok tt
IsAccepted (ExecutionAction.submit_oso_order order) = validate_oso order ≡ ok tt
IsAccepted _ = Unit {0}

module _ {X : Externals} (request : ExecutionRequest X)
    (named : Text.is_empty (trim request.instrument.tradovate_symbol) ≡ false) where
  entry_action-IsAccepted :
      (side : TradeSide) (order_type : EntryOrderType) (m : ℕ) (brackets : Bool) (reason : String)
      (action : ExecutionAction X)
      → m ≢ 0
      → entry_action request side order_type m brackets reason ≡ ok action
      → IsAccepted action
  unfolding entry_action validate_order validate_oso
  entry_action-IsAccepted side order_type m true reason action h e = ground arith
  entry_action-IsAccepted side order_type m false reason action h e = ground arith

  plan_opening-IsAccepted :
      (side : TradeSide) (n : ℕ) (reason : String) (before : List (ExecutionAction X)) (m : ℕ)
      → n ≢ 0
      → plan_opening request side n reason (active_position request.state.current_position)
        ≡ ok (before, m)
      → All IsAccepted before × (m ≢ 0)
  unfolding plan_opening
  plan_opening-IsAccepted side n reason before m h e = ground arith

  cancellations-IsAccepted :
      (reason : String) (orders : List (BrokerOrderUpdate X)) (actions : List (ExecutionAction X))
      → cancellations reason orders ≡ ok actions
      → All IsAccepted actions
  unfolding cancellations
  cancellations-IsAccepted reason [] actions h = ground arith
  cancellations-IsAccepted reason (order ∷ orders) actions h =
      let (i, e, h') = >>=-eq-ok (ok_or (parse_i64 order.broker_order_id) _) _ h in
      let (rest, e', h'') = >>=-eq-ok (cancellations reason orders) _ h' in
      ground (arith, cancellations-IsAccepted reason orders rest e')

  reduce-IsAccepted :
      (n : ℕ) (reason : String) (plan : ExecutionPlan X)
      → plan_reduce_position request n reason ≡ ok plan
      → All IsAccepted plan.actions
  unfolding plan_reduce_position validate_order
  reduce-IsAccepted n reason plan h = ground arith

  intent-IsAccepted :
      (intent : ExecutionIntent) (plan : ExecutionPlan X)
      → plan_intent intent request ≡ ok plan
      → All IsAccepted plan.actions
  unfolding plan_flatten plan_cancel_working_orders
  intent-IsAccepted (ExecutionIntent.enter side order_type n brackets reason) plan h =
      let parts = plan_entry-EntryParts request side order_type n brackets reason plan h in
      let (first, positive) =
        plan_opening-IsAccepted side n reason parts.before parts.quantity parts.positive
          parts.opened in
      rw (parts.whole) (
        All-append IsAccepted parts.before (parts.action ∷ []) first (
          entry_action-IsAccepted side order_type parts.quantity brackets reason parts.action
              positive parts.built,
          tt,
        ))
  intent-IsAccepted (ExecutionIntent.exit reason) plan h = ground arith
  intent-IsAccepted (ExecutionIntent.flatten reason) plan h = ground arith
  intent-IsAccepted (ExecutionIntent.reduce_position n reason) plan h =
      reduce-IsAccepted n reason plan h
  intent-IsAccepted (ExecutionIntent.cancel_working_orders reason) plan h =
      let kept = keep (is_cancellable request) request.state.working_orders in
      let (actions, e, h') = >>=-eq-ok (cancellations reason kept) _ h in
      ground (arith, cancellations-IsAccepted reason kept actions e)
  intent-IsAccepted (ExecutionIntent.pause_strategy reason) plan h = ground arith

  -- For an instrument with a symbol that is not blank, every order of every plan passes the broker
  -- adapter's own validation of symbol, quantity, prices and brackets.
  pub plan_tradovate-IsAccepted :
      (plan : ExecutionPlan X) → plan_tradovate request ≡ ok plan → All IsAccepted plan.actions
  unfolding plan_tradovate
  plan_tradovate-IsAccepted plan h =
      let (_, e, h') = >>=-eq-ok (validate_instrument request.instrument) _ h in
      intent-IsAccepted request.intent plan h'
