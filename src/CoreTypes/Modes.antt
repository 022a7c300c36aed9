-- ===== src/CoreTypes/Modes.antt =====
-- The enumerations of crates/core_types/src/lib.rs.
use tv_bot_core.Base.{Bool, true, false}

pub data RuntimeMode : Type 0 where
  paper live observation paused : RuntimeMode

pub data ActiveRuntimeMode : Type 0 where
  paper live observation : ActiveRuntimeMode

pub data WarmupStatus : Type 0 where
  not_loaded loaded warming ready failed : WarmupStatus

pub data ArmState : Type 0 where
  disarmed armed : ArmState

pub data ContractMode : Type 0 where
  front_month_auto : ContractMode

pub data Timeframe : Type 0 where
  one_second one_minute five_minute : Timeframe

pub data FeedType : Type 0 where
  trades ohlcv_1s ohlcv_1m ohlcv_5m mbp mbo : FeedType

pub data SessionMode : Type 0 where
  always fixed_window : SessionMode

pub data FlattenRuleMode : Type 0 where
  no_rule by_time session_end : FlattenRuleMode

pub data SignalCombinationMode : Type 0 where
  all any n_of_m weighted_score : SignalCombinationMode

pub data SignalDirection : Type 0 where
  long short flat : SignalDirection

pub data EntryOrderType : Type 0 where
  market limit stop stop_limit : EntryOrderType

pub data PositionSizingMode : Type 0 where
  fixed risk_based : PositionSizingMode

pub data ReversalMode : Type 0 where
  flatten_first direct_reverse : ReversalMode

pub data BrokerPreference : Type 0 where
  broker_required broker_preferred bot_allowed : BrokerPreference

pub data TradeSide : Type 0 where
  buy sell : TradeSide

pub data RiskDecisionStatus : Type 0 where
  accepted rejected requires_override : RiskDecisionStatus

pub data BrokerOrderStatus : Type 0 where
  pending working filled cancelled rejected : BrokerOrderStatus

pub data ActionSource : Type 0 where
  dashboard cli system : ActionSource

pub data OperatorRole : Type 0 where
  viewer operator trade_operator : OperatorRole

pub data EventSeverity : Type 0 where
  info warning error : EventSeverity

pub data ReadinessCheckStatus : Type 0 where
  pass warning blocking : ReadinessCheckStatus

pub data BrokerEnvironment : Type 0 where
  demo live custom : BrokerEnvironment

pub data BrokerAccountRouting : Type 0 where
  paper live : BrokerAccountRouting

pub data BrokerConnectionState : Type 0 where
  disconnected authenticating authenticated connecting : BrokerConnectionState
  connected reconnecting failed : BrokerConnectionState

pub data BrokerHealth : Type 0 where
  healthy initializing degraded disconnected failed : BrokerHealth

pub data BrokerSyncState : Type 0 where
  pending synchronized stale mismatch review_required disconnected failed : BrokerSyncState

-- The derived `PartialEq` of the enumerations that the program compares.
abbrev pub mode_eq : RuntimeMode → RuntimeMode → Bool
mode_eq RuntimeMode.paper RuntimeMode.paper = true
mode_eq RuntimeMode.live RuntimeMode.live = true
mode_eq RuntimeMode.observation RuntimeMode.observation = true
mode_eq RuntimeMode.paused RuntimeMode.paused = true
mode_eq _ _ = false

abbrev pub side_eq : TradeSide → TradeSide → Bool
side_eq TradeSide.buy TradeSide.buy = true
side_eq TradeSide.sell TradeSide.sell = true
side_eq _ _ = false

abbrev pub timeframe_eq : Timeframe → Timeframe → Bool
timeframe_eq Timeframe.one_second Timeframe.one_second = true
timeframe_eq Timeframe.one_minute Timeframe.one_minute = true
timeframe_eq Timeframe.five_minute Timeframe.five_minute = true
timeframe_eq _ _ = false

abbrev pub is_broker_required : BrokerPreference → Bool
is_broker_required BrokerPreference.broker_required = true
is_broker_required _ = false

abbrev pub is_working : BrokerOrderStatus → Bool
is_working BrokerOrderStatus.working = true
is_working _ = false

abbrev pub is_accepted : RiskDecisionStatus → Bool
is_accepted RiskDecisionStatus.accepted = true
is_accepted _ = false

abbrev pub is_ready : WarmupStatus → Bool
is_ready WarmupStatus.ready = true
is_ready _ = false

abbrev pub is_armed : ArmState → Bool
is_armed ArmState.armed = true
is_armed _ = false
