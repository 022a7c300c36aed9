-- ===== src/CoreTypes/Status.antt =====
-- Broker status, readiness reports and journal records of crates/core_types/src/lib.rs.
use tv_bot_core.Base.{ℕ, Bool, Option, List, String, ◌&&◌, not, any}
use tv_bot_core.External.{Externals}
use tv_bot_core.CoreTypes.Modes.{
  RuntimeMode, ActionSource, OperatorRole, EventSeverity, ReadinessCheckStatus, BrokerEnvironment,
  BrokerAccountRouting, BrokerConnectionState, BrokerHealth, BrokerSyncState,
}

pub record AuthenticatedOperator : Type 0 where
  pub user_id : String
  pub display_name : Option String
  pub session_id : Option String
  pub device_id : Option String
  pub provider : Option String
  pub roles : List OperatorRole

pub record BrokerAccountSelection (X : Externals) : Type 0 where
  pub provider : String
  pub account_id : String
  pub account_name : String
  pub routing : BrokerAccountRouting
  pub environment : BrokerEnvironment
  pub selected_at : X.DateTime

pub record BrokerStatusSnapshot (X : Externals) : Type 0 where
  pub provider : String
  pub environment : BrokerEnvironment
  pub connection_state : BrokerConnectionState
  pub health : BrokerHealth
  pub sync_state : BrokerSyncState
  pub selected_account : Option (BrokerAccountSelection X)
  pub reconnect_count : ℕ  -- u64
  pub last_authenticated_at : Option X.DateTime
  pub last_heartbeat_at : Option X.DateTime
  pub last_sync_at : Option X.DateTime
  pub last_disconnect_reason : Option String
  pub review_required_reason : Option String
  pub updated_at : X.DateTime

pub record ReadinessCheck : Type 0 where
  pub name : String
  pub status : ReadinessCheckStatus
  pub message : String

pub record ArmReadinessReport (X : Externals) : Type 0 where
  pub mode : RuntimeMode
  pub checks : List ReadinessCheck
  pub risk_summary : String
  pub hard_override_required : Bool
  pub generated_at : X.DateTime

abbrev is_blocking_status : ReadinessCheckStatus → Bool
is_blocking_status ReadinessCheckStatus.blocking = Bool.true
is_blocking_status _ = Bool.false

abbrev pub is_blocking : ReadinessCheck → Bool
is_blocking check = is_blocking_status check.status

unfoldable pub has_blocking_issues : {X : Externals} → ArmReadinessReport X → Bool
has_blocking_issues report = any is_blocking report.checks

unfoldable pub is_ready_without_override : {X : Externals} → ArmReadinessReport X → Bool
unfolding has_blocking_issues
is_ready_without_override report =
    not (has_blocking_issues report) && not report.hard_override_required

pub record EventJournalRecord (X : Externals) : Type 0 where
  pub event_id : String
  pub category : String
  pub action : String
  pub source : ActionSource
  pub severity : EventSeverity
  pub occurred_at : X.DateTime
  pub payload : X.Json
