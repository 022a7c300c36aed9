-- ===== src/CoreTypes/Strategy.antt =====
-- The compiled strategy of crates/core_types/src/lib.rs.
use tv_bot_core.Base.{ℕ, Bool, false, Option, none, some, List, String}
use tv_bot_core.External.{Externals}
use tv_bot_core.CoreTypes.Modes.{
  ContractMode, Timeframe, FeedType, SessionMode, FlattenRuleMode, SignalCombinationMode,
  EntryOrderType, PositionSizingMode, ReversalMode, BrokerPreference,
}

pub record StrategyMetadata : Type 0 where
  pub schema_version : ℕ  -- u32
  pub strategy_id : String
  pub name : String
  pub version : String
  pub author : String
  pub description : String
  pub tags : List String
  pub source : Option String
  pub notes : Option String

pub record MarketSelection : Type 0 where
  pub contract_mode : ContractMode

pub record MarketConfig : Type 0 where
  pub market : String
  pub selection : MarketSelection

pub record TradeWindow : Type 0 where
  pub start : String
  pub end : String

pub record FlattenRule : Type 0 where
  pub mode : FlattenRuleMode
  pub time : Option String

pub record SessionRules : Type 0 where
  pub mode : SessionMode
  pub timezone : String
  pub trade_window : Option TradeWindow
  pub no_new_entries_after : Option String
  pub flatten_rule : Option FlattenRule
  pub allowed_days : List String

pub record DataFeedRequirement : Type 0 where
  pub kind : FeedType

pub record DataFeatureRequirements : Type 0 where
  pub volume : Option Bool

pub record DataRequirements : Type 0 where
  pub feeds : List DataFeedRequirement
  pub timeframes : List Timeframe
  pub multi_timeframe : Bool
  pub requires : Option DataFeatureRequirements

-- A `BTreeMap` is the list of its entries, in the order of the keys.
pub record WarmupRequirements : Type 0 where
  pub bars_required : List (Timeframe × ℕ)
  pub ready_requires_all : Bool

pub record ScalingConfig : Type 0 where
  pub allow_scale_in : Bool
  pub allow_scale_out : Bool
  pub max_legs : ℕ  -- u32

pub record BrokerPreferences : Type 0 where
  pub stop_loss : BrokerPreference
  pub take_profit : BrokerPreference
  pub trailing_stop : BrokerPreference

pub record ExecutionSpec : Type 0 where
  pub reversal_mode : ReversalMode
  pub scaling : ScalingConfig
  pub broker_preferences : BrokerPreferences

pub record BreakEvenRule : Type 0 where
  pub enabled : Bool
  pub activate_at_ticks : Option ℕ

pub record TrailingRule : Type 0 where
  pub enabled : Bool
  pub activate_at_ticks : Option ℕ
  pub trail_ticks : Option ℕ

pub record PartialTakeProfitTarget : Type 0 where
  pub at_ticks : ℕ  -- u32
  pub percent : ℕ  -- u8

pub record PartialTakeProfitRule : Type 0 where
  pub enabled : Bool
  pub targets : List PartialTakeProfitTarget

pub record DailyLossLimit : Type 0 where
  pub broker_side_required : Bool
  pub local_backup_enabled : Bool

pub record FailsafeRules : Type 0 where
  pub no_new_entries_on_data_degrade : Bool
  pub pause_on_broker_sync_mismatch : Bool
  pub pause_on_reconnect_until_reviewed : Option Bool
  pub kill_on_repeated_order_rejects : Option Bool
  pub abnormal_spread_guard : Option Bool
  pub clock_sanity_required : Option Bool
  pub storage_health_required : Option Bool

pub record SignalConfirmation (X : Externals) : Type 0 where
  pub mode : SignalCombinationMode
  pub primary_conditions : List String
  pub n_required : Option ℕ
  pub secondary_conditions : List String
  pub score_threshold : Option X.Decimal
  pub regime_filter : Option String
  pub sequence : List String

pub record EntryRules (X : Externals) : Type 0 where
  pub long_enabled : Bool
  pub short_enabled : Bool
  pub entry_order_type : EntryOrderType
  pub entry_conditions : Option X.Json
  pub max_entry_distance_ticks : Option ℕ
  pub entry_timeout_seconds : Option ℕ
  pub allow_reentry_same_bar : Option Bool
  pub entry_filters : Option X.Json

pub record ExitRules (X : Externals) : Type 0 where
  pub exit_on_opposite_signal : Bool
  pub flatten_on_session_end : Bool
  pub exit_conditions : List String
  pub timeout_exit : Option Bool
  pub max_hold_seconds : Option ℕ
  pub emergency_exit_rules : Option X.Json

pub record PositionSizing (X : Externals) : Type 0 where
  pub mode : PositionSizingMode
  pub contracts : Option ℕ
  pub max_risk_usd : Option X.Decimal
  pub min_contracts : Option ℕ
  pub max_contracts : Option ℕ
  pub fallback_fixed_contracts : Option ℕ
  pub rounding_mode : Option String

pub record TradeManagement (X : Externals) : Type 0 where
  pub initial_stop_ticks : ℕ  -- u32
  pub take_profit_ticks : ℕ  -- u32
  pub break_even : Option BreakEvenRule
  pub trailing : Option TrailingRule
  pub partial_take_profit : Option PartialTakeProfitRule
  pub post_entry_rules : Option X.Json
  pub time_based_adjustments : Option X.Json

pub record RiskLimits (X : Externals) : Type 0 where
  pub daily_loss : DailyLossLimit
  pub max_trades_per_day : ℕ  -- u32
  pub max_consecutive_losses : ℕ  -- u32
  pub max_open_positions : Option ℕ
  pub max_unrealized_drawdown_usd : Option X.Decimal
  pub cooldown_after_daily_stop : Option Bool
  pub max_notional_exposure : Option X.Decimal

pub record StateBehavior (X : Externals) : Type 0 where
  pub cooldown_after_loss_s : ℕ  -- u32
  pub max_reentries_per_side : ℕ  -- u32
  pub regime_mode : Option String
  pub memory_reset_rules : Option X.Json
  pub post_win_cooldown_s : Option ℕ
  pub failed_setup_decay : Option ℕ
  pub reentry_logic : Option X.Json

pub record DashboardDisplay (X : Externals) : Type 0 where
  pub show : List String
  pub default_overlay : String
  pub debug_panels : List String
  pub custom_labels : Option X.Json
  pub preferred_chart_timeframe : Option String

pub record CompiledStrategy (X : Externals) : Type 0 where
  pub metadata : StrategyMetadata
  pub market : MarketConfig
  pub session : SessionRules
  pub data_requirements : DataRequirements
  pub warmup : WarmupRequirements
  pub signal_confirmation : SignalConfirmation X
  pub entry_rules : EntryRules X
  pub exit_rules : ExitRules X
  pub position_sizing : PositionSizing X
  pub execution : ExecutionSpec
  pub trade_management : TradeManagement X
  pub risk : RiskLimits X
  pub failsafes : FailsafeRules
  pub state_behavior : StateBehavior X
  pub dashboard_display : DashboardDisplay X

-- `trailing.as_ref().is_some_and(|rule| rule.enabled)`
abbrev pub trailing_enabled : Option TrailingRule → Bool
trailing_enabled none = false
trailing_enabled (some rule) = rule.enabled
