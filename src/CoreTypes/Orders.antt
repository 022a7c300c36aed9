-- ===== src/CoreTypes/Orders.antt =====
-- Intents, risk decisions and broker updates of crates/core_types/src/lib.rs.
use tv_bot_core.Base.{ℕ, ℤ, Bool, Option, List, String}
use tv_bot_core.External.{Externals}
use tv_bot_core.CoreTypes.Modes.{
  SignalDirection, Timeframe, TradeSide, EntryOrderType, RiskDecisionStatus, BrokerOrderStatus,
}

pub data ExecutionIntent : Type 0 where
  enter :
      (side : TradeSide) (order_type : EntryOrderType) (quantity : ℕ)
      (protective_brackets_expected : Bool) (reason : String)
      → ExecutionIntent
  exit : (reason : String) → ExecutionIntent
  flatten : (reason : String) → ExecutionIntent
  cancel_working_orders : (reason : String) → ExecutionIntent
  reduce_position : (quantity : ℕ) (reason : String) → ExecutionIntent
  pause_strategy : (reason : String) → ExecutionIntent

pub record SignalDecision (X : Externals) : Type 0 where
  pub strategy_id : String
  pub direction : SignalDirection
  pub score : Option X.Decimal
  pub rationale : List String
  pub occurred_at : X.DateTime

pub record RiskDecision : Type 0 where
  pub status : RiskDecisionStatus
  pub reason : String
  pub warnings : List String

pub record BrokerOrderUpdate (X : Externals) : Type 0 where
  pub broker_order_id : String
  pub account_id : Option String
  pub symbol : String
  pub side : Option TradeSide
  pub quantity : Option ℕ
  pub order_type : Option EntryOrderType
  pub status : BrokerOrderStatus
  pub filled_quantity : ℕ  -- u32
  pub limit_price : Option X.Decimal
  pub stop_price : Option X.Decimal
  pub average_fill_price : Option X.Decimal
  pub updated_at : X.DateTime

pub record BrokerPositionSnapshot (X : Externals) : Type 0 where
  pub account_id : Option String
  pub symbol : String
  pub quantity : ℤ  -- i32
  pub average_price : Option X.Decimal
  pub realized_pnl : Option X.Decimal
  pub unrealized_pnl : Option X.Decimal
  pub protective_orders_present : Bool
  pub captured_at : X.DateTime

pub record BrokerFillUpdate (X : Externals) : Type 0 where
  pub fill_id : String
  pub broker_order_id : Option String
  pub account_id : Option String
  pub symbol : String
  pub side : TradeSide
  pub quantity : ℕ  -- u32
  pub price : X.Decimal
  pub fee : Option X.Decimal
  pub commission : Option X.Decimal
  pub occurred_at : X.DateTime

pub record BrokerAccountSnapshot (X : Externals) : Type 0 where
  pub account_id : String
  pub account_name : Option String
  pub cash_balance : Option X.Decimal
  pub available_funds : Option X.Decimal
  pub excess_liquidity : Option X.Decimal
  pub margin_used : Option X.Decimal
  pub net_liquidation_value : Option X.Decimal
  pub realized_pnl : Option X.Decimal
  pub unrealized_pnl : Option X.Decimal
  pub risk_state : Option String
  pub captured_at : X.DateTime

pub data MarketEvent (X : Externals) : Type 0 where
  trade :
      (symbol : String) (price : X.Decimal) (quantity : ℕ) (occurred_at : X.DateTime)
      → MarketEvent X
  bar :
      (symbol : String) (timeframe : Timeframe) (open_price high low close : X.Decimal) (volume : ℕ)
      (closed_at : X.DateTime)
      → MarketEvent X
  heartbeat : (dataset : String) (occurred_at : X.DateTime) → MarketEvent X
