-- ===== src/BrokerTradovate/Session.antt =====
-- The data of the session with the broker, crates/broker_tradovate/src/lib.rs, its requests of
-- execution.rs, and the traits that it is generic over.
use tv_bot_core.Base.{
  ℕ, ℤ, Bool, Option, none, List, [], String, is_nonzero, any, is_empty, not, ◌||◌,
}
use tv_bot_core.External.{Externals}
use tv_bot_core.CoreTypes.{
  BrokerEnvironment, BrokerAccountSelection, BrokerAccountSnapshot, BrokerConnectionState,
  BrokerSyncState, BrokerFillUpdate, BrokerOrderUpdate, BrokerPositionSnapshot,
  BrokerStatusSnapshot,
}

pub record TradovateRoutingPreferences : Type 0 where
  pub paper_account_name : Option String
  pub live_account_name : Option String

pub data TradovateAccountSelector : Type 0 where
  auto : TradovateAccountSelector
  account_id : ℤ → TradovateAccountSelector
  account_name : String → TradovateAccountSelector

pub data TradovateReconnectDecision : Type 0 where
  close_position leave_broker_protected reattach_bot_management : TradovateReconnectDecision

pub record TradovateAccount : Type 0 where
  pub account_id : ℤ  -- i64
  pub account_name : String
  pub nickname : Option String
  pub active : Bool

module _ (X : Externals) where
  pub record TradovateCredentials : Type 0 where
    pub username : String
    pub password : X.Secret
    pub cid : String
    pub sec : X.Secret
    pub app_id : String
    pub app_version : String
    pub device_id : Option String

  pub record TradovateSessionConfig : Type 0 where
    pub environment : BrokerEnvironment
    pub http_base_url : String
    pub websocket_url : String
    pub renew_before_expiry : X.Duration
    pub heartbeat_stale_after : X.Duration
    pub sync_stale_after : X.Duration

  pub record TradovateAccessToken : Type 0 where
    pub access_token : X.Secret
    pub expiration_time : X.DateTime
    pub issued_at : X.DateTime
    pub user_id : Option ℤ
    pub person_id : Option ℤ
    pub market_data_access : Option String

  pub record TradovateSyncSnapshot : Type 0 where
    pub occurred_at : X.DateTime
    pub positions : List (BrokerPositionSnapshot X)
    pub working_orders : List (BrokerOrderUpdate X)
    pub fills : List (BrokerFillUpdate X)
    pub account_snapshot : Option (BrokerAccountSnapshot X)
    pub mismatch_reason : Option String
    pub detail : String

  pub data TradovateSyncEvent : Type 0 where
    heartbeat : (occurred_at : X.DateTime) → TradovateSyncEvent
    sync_snapshot : (snapshot : TradovateSyncSnapshot) → TradovateSyncEvent
    mismatch : (occurred_at : X.DateTime) (detail : String) → TradovateSyncEvent
    disconnected : (occurred_at : X.DateTime) (reason : String) → TradovateSyncEvent
    reconnected : (occurred_at : X.DateTime) (detail : String) → TradovateSyncEvent

  pub record SessionState : Type 0 where
    pub connection_state : BrokerConnectionState
    pub sync_state : BrokerSyncState
    pub access_token : Option TradovateAccessToken
    pub available_accounts : List TradovateAccount
    pub selected_account : Option (BrokerAccountSelection X)
    pub reconnect_count : ℕ  -- u64
    pub last_authenticated_at : Option X.DateTime
    pub last_heartbeat_at : Option X.DateTime
    pub last_sync_at : Option X.DateTime
    pub last_disconnect_reason : Option String
    pub review_required_reason : Option String
    pub last_review_decision : Option TradovateReconnectDecision
    pub open_positions : List (BrokerPositionSnapshot X)
    pub working_orders : List (BrokerOrderUpdate X)
    pub fills : List (BrokerFillUpdate X)
    pub account_snapshot : Option (BrokerAccountSnapshot X)

  pub record TradovateSessionSnapshot : Type 0 where
    pub broker : BrokerStatusSnapshot X
    pub available_accounts : List TradovateAccount
    pub token_expires_at : Option X.DateTime
    pub current_user_id : Option ℤ
    pub last_review_decision : Option TradovateReconnectDecision
    pub open_positions : List (BrokerPositionSnapshot X)
    pub working_orders : List (BrokerOrderUpdate X)
    pub fills : List (BrokerFillUpdate X)
    pub account_snapshot : Option (BrokerAccountSnapshot X)

  pub record TradovateAuthRequest : Type 0 where
    pub http_base_url : String
    pub environment : BrokerEnvironment
    pub credentials : TradovateCredentials

  pub record TradovateRenewAccessTokenRequest : Type 0 where
    pub http_base_url : String
    pub environment : BrokerEnvironment
    pub current_token : TradovateAccessToken

  pub record TradovateAccountListRequest : Type 0 where
    pub http_base_url : String
    pub environment : BrokerEnvironment
    pub access_token : TradovateAccessToken

  pub record TradovateSyncConnectRequest : Type 0 where
    pub websocket_url : String
    pub environment : BrokerEnvironment
    pub access_token : TradovateAccessToken

  pub record TradovateUserSyncRequest : Type 0 where
    pub account_id : ℤ
    pub access_token : TradovateAccessToken

  pub record TradovateExecutionContext : Type 0 where
    pub http_base_url : String
    pub access_token : TradovateAccessToken
    pub account_id : ℤ
    pub account_spec : String

-- `SessionState::default`
unfoldable pub initial_state : {X : Externals} → SessionState X
initial_state = record {
  connection_state = BrokerConnectionState.disconnected;
  sync_state = BrokerSyncState.disconnected;
  access_token = none;
  available_accounts = [];
  selected_account = none;
  reconnect_count = 0;
  last_authenticated_at = none;
  last_heartbeat_at = none;
  last_sync_at = none;
  last_disconnect_reason = none;
  review_required_reason = none;
  last_review_decision = none;
  open_positions = [];
  working_orders = [];
  fills = [];
  account_snapshot = none;
}

module _ {X : Externals} where
  -- `TradovateSyncSnapshot::has_open_exposure`, of the two lists that it reads.
  unfoldable pub has_open_exposure :
      List (BrokerPositionSnapshot X) → List (BrokerOrderUpdate X) → Bool
  has_open_exposure positions working_orders =
      any (λ position. is_nonzero position.quantity) positions || not (is_empty working_orders)
