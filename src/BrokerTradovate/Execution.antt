-- ===== src/BrokerTradovate/Execution.antt =====
-- The methods of `TradovateSessionManager` in crates/broker_tradovate/src/lib.rs that send orders
-- to the broker.
use tv_bot_core.Base.{ℤ, true, false, Option, String, Result}
use tv_bot_core.External.{Externals}
use tv_bot_core.BrokerTradovate.Orders.{
  TradovateError, TradovateOrderPlacement, TradovateOsoOrderPlacement,
}
use tv_bot_core.BrokerTradovate.Session.{TradovateExecutionContext}
use tv_bot_core.BrokerTradovate.Apis.{
  SessionApis, Method, TradovatePlaceOsoResult, ◌>>=◌, read, call,
}
use tv_bot_core.BrokerTradovate.Config.{TradovateSessionManager}
use tv_bot_core.BrokerTradovate.Manager.{renew_access_token_if_needed}
use tv_bot_core.BrokerTradovate.Status.{execution_context}

module _ {X : Externals} (A : SessionApis X) (m : TradovateSessionManager X) where
  -- The steps that every call of the execution API shares.
  abbrev pub with_context :
      {B : Type 0}
      → (TradovateExecutionContext X → A.World → Result TradovateError B × A.World)
      → Method A B
  with_context send = do
    _ ← renew_access_token_if_needed A m
    context ← read (execution_context m)
    call (send context)

  unfoldable pub place_order : TradovateOrderPlacement X → Method A ℤ
  place_order order = with_context (λ context. A.place_order context order)

  unfoldable pub place_oso : TradovateOsoOrderPlacement X → Method A TradovatePlaceOsoResult
  place_oso order = with_context (λ context. A.place_oso context order)

  unfoldable pub liquidate_position : ℤ → Option String → Method A ℤ
  liquidate_position contract_id custom_tag_50 =
      with_context (λ context. A.liquidate_position context contract_id custom_tag_50 false)

  unfoldable pub cancel_order : ℤ → Method A ℤ
  cancel_order order_id = with_context (λ context. A.cancel_order context order_id true)
