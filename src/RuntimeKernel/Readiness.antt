-- ===== src/RuntimeKernel/Readiness.antt =====
-- `ReadinessEvaluator` of crates/runtime_kernel/src/lib.rs.
use tv_bot_core.Base.{
  ℕ, suc, Bool, Option, none, some, List, [], ◌∷◌, ◌++◌, String, not, is_empty, format,
  show_unsigned, trim, if◌then◌else◌,
}
use tv_bot_core.Base.Text
use tv_bot_core.External.{Externals}
use tv_bot_core.CoreTypes.{
  RuntimeMode, WarmupStatus, BrokerHealth, BrokerSyncState, BrokerAccountRouting, ReadinessCheck,
  ReadinessCheckStatus, ArmReadinessReport, BrokerStatusSnapshot, BrokerAccountSelection,
}

pub data DependencyHealth : Type 0 where
  healthy : DependencyHealth
  warning : String → DependencyHealth
  blocking : String → DependencyHealth

pub record ReadinessInputs : Type 0 where
  pub mode : RuntimeMode
  pub strategy_loaded : Bool
  pub warmup_status : WarmupStatus
  pub account_selection : DependencyHealth
  pub symbol_mapping_resolved : Bool
  pub market_data : DependencyHealth
  pub broker_sync : DependencyHealth
  pub storage : DependencyHealth
  pub journal : DependencyHealth
  pub clock : DependencyHealth
  pub risk_summary : String
  pub hard_override_reasons : List String

-- `MarketDataHealth` of crates/market_data/src/lib.rs.
pub data MarketDataHealth : Type 0 where
  healthy initializing degraded disconnected failed : MarketDataHealth

unfoldable pub readiness_check : String → DependencyHealth → ReadinessCheck
readiness_check name DependencyHealth.healthy = record {
  name = name;
  status = ReadinessCheckStatus.pass;
  message = "ok";
}
readiness_check name (DependencyHealth.warning message) = record {
  name = name;
  status = ReadinessCheckStatus.warning;
  message = message;
}
readiness_check name (DependencyHealth.blocking message) = record {
  name = name;
  status = ReadinessCheckStatus.blocking;
  message = message;
}

unfoldable pub mode_dependency : RuntimeMode → DependencyHealth
mode_dependency RuntimeMode.paper = DependencyHealth.healthy
mode_dependency RuntimeMode.live = DependencyHealth.healthy
mode_dependency RuntimeMode.observation =
    DependencyHealth.blocking "observation mode cannot be armed for trading"
mode_dependency RuntimeMode.paused =
    DependencyHealth.blocking "paused mode must be resumed into paper or live before arming"

unfoldable pub warmup_dependency : WarmupStatus → DependencyHealth
warmup_dependency WarmupStatus.ready = DependencyHealth.healthy
warmup_dependency WarmupStatus.not_loaded = DependencyHealth.blocking "warmup has not been prepared"
warmup_dependency WarmupStatus.loaded =
    DependencyHealth.blocking "strategy is loaded but warmup has not started"
warmup_dependency WarmupStatus.warming = DependencyHealth.blocking "warmup is still in progress"
warmup_dependency WarmupStatus.failed = DependencyHealth.blocking "warmup failed and needs review"

-- A dependency that is healthy or blocks.
abbrev unless : Bool → String → DependencyHealth
unless fine message = if fine then DependencyHealth.healthy else DependencyHealth.blocking message

-- The warnings of the loop over the override reasons, numbered from `index`.
unfoldable pub override_checks : ℕ → List String → List ReadinessCheck
override_checks index [] = []
override_checks index (reason ∷ reasons) =
    record {
      name = format ("override_requirement_" ∷ show_unsigned index ∷ []);
      status = ReadinessCheckStatus.warning;
      message = reason;
    }
    ∷ override_checks (suc index) reasons

unfoldable pub dependency_checks : ReadinessInputs → List ReadinessCheck
unfolding readiness_check mode_dependency warmup_dependency
dependency_checks input =
    readiness_check "mode" (mode_dependency input.mode)
    ∷ readiness_check "strategy_loaded"
        (unless input.strategy_loaded "no strategy is currently loaded")
    ∷ readiness_check "warmup" (warmup_dependency input.warmup_status)
    ∷ readiness_check "account_selected" input.account_selection
    ∷ readiness_check "symbol_mapping" (
        unless input.symbol_mapping_resolved
          "strategy market intent has not been resolved to a broker symbol")
    ∷ readiness_check "market_data" input.market_data
    ∷ readiness_check "broker_sync" input.broker_sync
    ∷ readiness_check "storage" input.storage
    ∷ readiness_check "journal" input.journal
    ∷ readiness_check "clock" input.clock
    ∷ readiness_check "risk_summary"
        (unless (not (Text.is_empty (trim input.risk_summary))) "risk summary must be present")
    ∷ []

unfoldable pub market_data_dependency : MarketDataHealth → DependencyHealth
market_data_dependency MarketDataHealth.healthy = DependencyHealth.healthy
market_data_dependency MarketDataHealth.initializing =
    DependencyHealth.blocking
      "market data subscriptions are connected but required feeds are not ready yet"
market_data_dependency MarketDataHealth.degraded =
    DependencyHealth.blocking "market data is degraded; new entries must remain blocked"
market_data_dependency MarketDataHealth.disconnected =
    DependencyHealth.blocking "market data is disconnected"
market_data_dependency MarketDataHealth.failed =
    DependencyHealth.blocking "market data adapter reported a failure"

abbrev routing_dependency : RuntimeMode → BrokerAccountRouting → DependencyHealth
routing_dependency RuntimeMode.paper BrokerAccountRouting.live =
    DependencyHealth.blocking
      "selected broker account is routed for live trading while runtime mode is paper"
routing_dependency RuntimeMode.live BrokerAccountRouting.paper =
    DependencyHealth.blocking
      "selected broker account is routed for paper trading while runtime mode is live"
routing_dependency _ _ = DependencyHealth.healthy

abbrev or_text : Option String → String → String
or_text none text = text
or_text (some reason) text = reason

-- The arms of the last `match` that only look at the health.
unfoldable pub by_health : BrokerHealth → DependencyHealth
by_health BrokerHealth.healthy = DependencyHealth.healthy
by_health BrokerHealth.degraded =
    DependencyHealth.blocking "broker health is degraded; new entries must remain blocked"
by_health BrokerHealth.disconnected = DependencyHealth.blocking "broker session is disconnected"
by_health _ = DependencyHealth.blocking "broker adapter reported a failure"

initializing_message : DependencyHealth
initializing_message =
    DependencyHealth.blocking "broker session is connected but account sync is still initializing"

disconnected_message : DependencyHealth
disconnected_message =
    DependencyHealth.blocking "broker session is disconnected; new entries must remain blocked"

unfoldable pub sync_dependency : BrokerSyncState → BrokerHealth → Option String → DependencyHealth
unfolding by_health initializing_message disconnected_message
sync_dependency BrokerSyncState.synchronized BrokerHealth.healthy reason = DependencyHealth.healthy
sync_dependency BrokerSyncState.synchronized BrokerHealth.initializing reason = initializing_message
sync_dependency BrokerSyncState.pending BrokerHealth.initializing reason = initializing_message
sync_dependency BrokerSyncState.stale _ reason =
    DependencyHealth.blocking "broker sync is stale; new entries must remain blocked"
sync_dependency BrokerSyncState.mismatch _ reason =
    DependencyHealth.blocking
      (or_text reason "broker sync mismatch is active; new entries must remain blocked")
sync_dependency BrokerSyncState.review_required _ reason =
    DependencyHealth.blocking
      (or_text reason "broker reconnect requires manual review before arming")
sync_dependency BrokerSyncState.disconnected BrokerHealth.disconnected reason = disconnected_message
sync_dependency BrokerSyncState.disconnected BrokerHealth.degraded reason = disconnected_message
sync_dependency BrokerSyncState.failed BrokerHealth.failed reason =
    DependencyHealth.blocking "broker adapter reported a failure"
sync_dependency BrokerSyncState.disconnected BrokerHealth.failed reason =
    DependencyHealth.blocking "broker adapter reported a failure"
sync_dependency _ health reason = by_health health

module _ {X : Externals} where
  -- The time of the report comes from the system clock.
  unfoldable pub evaluate_readiness : ReadinessInputs → X.DateTime → ArmReadinessReport X
  unfolding dependency_checks override_checks
  evaluate_readiness input now = record {
    mode = input.mode;
    checks = dependency_checks input ++ override_checks 0 input.hard_override_reasons;
    risk_summary = input.risk_summary;
    hard_override_required = not (is_empty input.hard_override_reasons);
    generated_at = now;
  }

  abbrev account_dependency : RuntimeMode → Option (BrokerAccountSelection X) → DependencyHealth
  account_dependency mode none = DependencyHealth.blocking "no broker account is selected"
  account_dependency mode (some account) = routing_dependency mode account.routing

  unfoldable pub broker_account_dependency : RuntimeMode → BrokerStatusSnapshot X → DependencyHealth
  broker_account_dependency mode snapshot = account_dependency mode snapshot.selected_account

  unfoldable pub broker_sync_dependency : BrokerStatusSnapshot X → DependencyHealth
  unfolding sync_dependency
  broker_sync_dependency snapshot =
      sync_dependency snapshot.sync_state snapshot.health snapshot.review_required_reason
