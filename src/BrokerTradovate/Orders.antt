-- ===== src/BrokerTradovate/Orders.antt =====
-- The orders of crates/broker_tradovate/src/execution.rs and what the adapter checks of them.
use tv_bot_core.Base.{
  ℕ, Bool, true, false, Option, none, some, List, [], ◌∷◌, String, Result, ok, ◌>>◌, guard, not,
  ltb, ◌==◌, ◌||◌, length, is_empty, is_some, trim, format,
}
use tv_bot_core.Base.Text
use tv_bot_core.External.{Externals}
use tv_bot_core.CoreTypes.{TradeSide, RuntimeMode, BrokerEnvironment, BrokerAccountRouting}

pub data TradovateOrderType : Type 0 where
  market limit stop stop_limit mit qts trailing_stop trailing_stop_limit : TradovateOrderType

pub data TradovateTimeInForce : Type 0 where
  day fok gtc gtd ioc : TradovateTimeInForce

pub data TradovateError : Type 0 where
  missing_config_field : (field : String) → TradovateError
  missing_credential : (field : String) → TradovateError
  invalid_duration : (field : String) → TradovateError
  no_access_token no_selected_account no_accounts_available : TradovateError
  account_selection_required : (routing : BrokerAccountRouting) → TradovateError
  account_not_found : (selector : String) → TradovateError
  unsupported_runtime_mode : (mode : RuntimeMode) → TradovateError
  environment_route_mismatch :
      (environment : BrokerEnvironment) (routing : BrokerAccountRouting) → TradovateError
  auth_transport : (message : String) → TradovateError
  account_transport : (message : String) → TradovateError
  sync_transport : (message : String) → TradovateError
  invalid_execution_request : (message : String) → TradovateError
  execution_transport : (message : String) → TradovateError
  execution_rejected : (reason message : String) → TradovateError

pub record TradovateOrderPlacement (X : Externals) : Type 0 where
  pub symbol : String
  pub side : TradeSide
  pub quantity : ℕ  -- u32
  pub order_type : TradovateOrderType
  pub limit_price : Option X.Decimal
  pub stop_price : Option X.Decimal
  pub time_in_force : Option TradovateTimeInForce
  pub expire_time : Option X.DateTime
  pub text : Option String
  pub activation_time : Option X.DateTime
  pub custom_tag_50 : Option String
  pub is_automated : Bool

pub record TradovateBracketOrder (X : Externals) : Type 0 where
  pub side : TradeSide
  pub quantity : Option ℕ
  pub order_type : TradovateOrderType
  pub limit_price : Option X.Decimal
  pub stop_price : Option X.Decimal
  pub time_in_force : Option TradovateTimeInForce
  pub expire_time : Option X.DateTime
  pub text : Option String
  pub activation_time : Option X.DateTime
  pub custom_tag_50 : Option String

pub record TradovateOsoOrderPlacement (X : Externals) : Type 0 where
  pub symbol : String
  pub side : TradeSide
  pub quantity : ℕ  -- u32
  pub order_type : TradovateOrderType
  pub limit_price : Option X.Decimal
  pub stop_price : Option X.Decimal
  pub time_in_force : Option TradovateTimeInForce
  pub expire_time : Option X.DateTime
  pub text : Option String
  pub activation_time : Option X.DateTime
  pub custom_tag_50 : Option String
  pub is_automated : Bool
  pub brackets : List (TradovateBracketOrder X)

-- The error that the checks below return, with its message.
abbrev invalid : String → TradovateError
invalid = TradovateError.invalid_execution_request

unfoldable pub validate_symbol : String → Result TradovateError (Unit {0})
validate_symbol symbol =
    guard (not (Text.is_empty (trim symbol))) (invalid "Tradovate order requests require a symbol")

unfoldable pub validate_quantity : ℕ → Result TradovateError (Unit {0})
validate_quantity quantity =
    guard (not (quantity == 0)) (invalid "Tradovate order quantity must be greater than zero")

abbrev needs_limit_price : TradovateOrderType → Bool
needs_limit_price TradovateOrderType.limit = true
needs_limit_price TradovateOrderType.stop_limit = true
needs_limit_price _ = false

abbrev needs_stop_price : TradovateOrderType → Bool
needs_stop_price TradovateOrderType.stop = true
needs_stop_price TradovateOrderType.stop_limit = true
needs_stop_price _ = false

-- The derived `Debug` of an order type.
abbrev debug_order_type : TradovateOrderType → String
debug_order_type TradovateOrderType.market = "Market"
debug_order_type TradovateOrderType.limit = "Limit"
debug_order_type TradovateOrderType.stop = "Stop"
debug_order_type TradovateOrderType.stop_limit = "StopLimit"
debug_order_type TradovateOrderType.mit = "Mit"
debug_order_type TradovateOrderType.qts = "Qts"
debug_order_type TradovateOrderType.trailing_stop = "TrailingStop"
debug_order_type TradovateOrderType.trailing_stop_limit = "TrailingStopLimit"

module _ (X : Externals) where
  unfoldable pub validate_price_requirements :
      TradovateOrderType → Option X.Decimal → Option X.Decimal → Result TradovateError (Unit {0})
  validate_price_requirements order_type limit_price stop_price = do
    guard (not (needs_limit_price order_type) || is_some limit_price) (
        invalid (
          format
            ("Tradovate " ∷ debug_order_type order_type ∷ " orders require a limit price" ∷ [])))
    guard (not (needs_stop_price order_type) || is_some stop_price) (
        invalid (
          format
            ("Tradovate " ∷ debug_order_type order_type ∷ " orders require a stop price" ∷ [])))
    ok tt

module _ {X : Externals} where
  -- `TradovateOrderPlacement::validate`
  unfoldable pub validate_order : TradovateOrderPlacement X → Result TradovateError (Unit {0})
  unfolding validate_symbol validate_quantity validate_price_requirements
  validate_order order = do
    validate_symbol order.symbol
    validate_quantity order.quantity
    validate_price_requirements X order.order_type order.limit_price order.stop_price

  abbrev bracket_quantity : TradovateBracketOrder X → ℕ → ℕ
  bracket_quantity bracket parent_quantity = elim bracket.quantity [
    | none ↦ parent_quantity
    | some quantity ↦ quantity
  ]

  -- `TradovateBracketOrder::validate`
  unfoldable pub validate_bracket : TradovateBracketOrder X → ℕ → Result TradovateError (Unit {0})
  unfolding validate_quantity validate_price_requirements
  validate_bracket bracket parent_quantity = do
    validate_quantity (bracket_quantity bracket parent_quantity)
    validate_price_requirements X bracket.order_type bracket.limit_price bracket.stop_price

  unfoldable pub validate_brackets :
      ℕ → List (TradovateBracketOrder X) → Result TradovateError (Unit {0})
  unfolding validate_bracket
  validate_brackets parent_quantity [] = ok tt
  validate_brackets parent_quantity (bracket ∷ brackets) =
      validate_bracket bracket parent_quantity >> validate_brackets parent_quantity brackets

  -- `TradovateOsoOrderPlacement::validate`
  unfoldable pub validate_oso : TradovateOsoOrderPlacement X → Result TradovateError (Unit {0})
  unfolding validate_symbol validate_quantity validate_price_requirements validate_brackets
  validate_oso order = do
    validate_symbol order.symbol
    validate_quantity order.quantity
    validate_price_requirements X order.order_type order.limit_price order.stop_price
    guard (not (is_empty order.brackets || ltb 2 (length order.brackets)))
        (invalid "Tradovate OSO requests require one or two bracket orders")
    validate_brackets order.quantity order.brackets
