-- ===== src/ExecutionEngine/Dispatch.antt =====
-- The dispatch of a plan through the broker session, `execute_tradovate_plan` and
-- `plan_and_execute_tradovate` of crates/execution_engine/src/lib.rs.
use tv_bot_core.Base.{ℤ, Bool, true, false, List, [], ◌∷◌, ◌++◌, String, Result, ok, err}
use tv_bot_core.External.{Externals}
use tv_bot_core.BrokerTradovate.Orders.{TradovateError}
use tv_bot_core.BrokerTradovate.Session.{SessionState}
use tv_bot_core.BrokerTradovate.Apis.{SessionApis, Outcome}
use tv_bot_core.BrokerTradovate.Config.{TradovateSessionManager}
use tv_bot_core.BrokerTradovate.Execution.{place_order, place_oso, liquidate_position, cancel_order}
use tv_bot_core.ExecutionEngine.Request.{
  ExecutionRequest, ExecutionAction, ExecutionPlan, ExecutionEngineError,
}
use tv_bot_core.ExecutionEngine.Planner.{plan_tradovate}

pub data ExecutionDispatchResult : Type 0 where
  order_submitted :
      (order_id : ℤ) (symbol : String) (used_brackets : Bool) → ExecutionDispatchResult
  order_cancelled : (order_id : ℤ) (symbol reason : String) → ExecutionDispatchResult
  position_liquidated : (order_id : ℤ) (contract_id : ℤ) (reason : String) → ExecutionDispatchResult
  strategy_paused : (reason : String) → ExecutionDispatchResult

pub record ExecutionDispatchReport : Type 0 where
  pub results : List ExecutionDispatchResult
  pub warnings : List String

pub data ExecutionDispatchError : Type 0 where
  planning : (source : ExecutionEngineError) → ExecutionDispatchError
  broker : (action : String) (source : TradovateError) → ExecutionDispatchError

module _ {X : Externals} (A : SessionApis X) (m : TradovateSessionManager X) where
  abbrev pub Dispatched : Type 0 → Type 0
  Dispatched B = Result ExecutionDispatchError B × SessionState X × A.World

  -- The `map_err` and the result that is pushed.
  abbrev pub sent :
      {B : Type 0}
      → String
      → (B → ExecutionDispatchResult)
      → Outcome (SessionState X) A.World B
      → Dispatched ExecutionDispatchResult
  sent action result (ok b, s, w) = (ok (result b), s, w)
  sent action result (err e, s, w) = (err (ExecutionDispatchError.broker action e), s, w)

  -- One round of the loop.
  unfoldable pub dispatch_action :
      ExecutionAction X → SessionState X → A.World → Dispatched ExecutionDispatchResult
  unfolding place_order place_oso liquidate_position cancel_order
  dispatch_action (ExecutionAction.submit_order order) s w =
      sent "place_order" (λ id. ExecutionDispatchResult.order_submitted id order.symbol false)
        (place_order A m order s w)
  dispatch_action (ExecutionAction.submit_oso_order order) s w =
      sent "place_oso" (λ r. ExecutionDispatchResult.order_submitted r.order_id order.symbol true)
        (place_oso A m order s w)
  dispatch_action (ExecutionAction.cancel_order order_id symbol reason) s w =
      sent "cancel_order" (λ id. ExecutionDispatchResult.order_cancelled id symbol reason)
        (cancel_order A m order_id s w)
  dispatch_action (ExecutionAction.liquidate_position contract_id reason tag) s w =
      sent "liquidate_position"
        (λ id. ExecutionDispatchResult.position_liquidated id contract_id reason)
        (liquidate_position A m contract_id tag s w)
  dispatch_action (ExecutionAction.pause_strategy reason) s w =
      (ok (ExecutionDispatchResult.strategy_paused reason), s, w)

  abbrev pub next :
      {B C : Type 0} → Dispatched B → (B → SessionState X → A.World → Dispatched C) → Dispatched C
  next (ok b, s, w) rest = rest b s w
  next (err e, s, w) rest = (err e, s, w)

  -- The loop, with the results pushed so far.
  unfoldable pub dispatch_actions :
      List (ExecutionAction X)
      → List ExecutionDispatchResult
      → SessionState X
      → A.World
      → Dispatched (List ExecutionDispatchResult)
  unfolding dispatch_action
  dispatch_actions [] results s w = (ok results, s, w)
  dispatch_actions (action ∷ actions) results s w =
      next (dispatch_action action s w)
        (λ result. dispatch_actions actions (results ++ result ∷ []))

  unfoldable pub execute_tradovate_plan :
      ExecutionPlan X → SessionState X → A.World → Dispatched ExecutionDispatchReport
  unfolding dispatch_actions
  execute_tradovate_plan plan s w =
      next (dispatch_actions plan.actions [] s w)
        (λ results s w. (ok (record { results = results; warnings = plan.warnings }), s, w))

  abbrev pub execute_planned :
      Result ExecutionEngineError (ExecutionPlan X)
      → SessionState X
      → A.World
      → Dispatched ExecutionDispatchReport
  execute_planned (err source) s w = (err (ExecutionDispatchError.planning source), s, w)
  execute_planned (ok plan) s w = execute_tradovate_plan plan s w

  unfoldable pub plan_and_execute_tradovate :
      ExecutionRequest X → SessionState X → A.World → Dispatched ExecutionDispatchReport
  unfolding execute_tradovate_plan plan_tradovate
  plan_and_execute_tradovate request s w = execute_planned (plan_tradovate request) s w
