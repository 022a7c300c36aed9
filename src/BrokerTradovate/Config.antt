-- ===== src/BrokerTradovate/Config.antt =====
-- The configuration of the session manager in crates/broker_tradovate/src/lib.rs, and the free
-- functions on modes, routings and states.
use tv_bot_core.Base.{
  Bool, Option, none, some, String, Result, ok, err, ◌>>◌, guard, not, trim, eq_ignore_ascii_case,
  if◌then◌else◌,
}
use tv_bot_core.Base.Text
use tv_bot_core.External.{Externals}
use tv_bot_core.CoreTypes.{
  RuntimeMode, BrokerEnvironment, BrokerAccountRouting, BrokerConnectionState, BrokerSyncState,
  BrokerHealth,
}
use tv_bot_core.BrokerTradovate.Orders.{TradovateError}
use tv_bot_core.BrokerTradovate.Session.{
  TradovateCredentials, TradovateSessionConfig, TradovateRoutingPreferences,
  TradovateAccountSelector,
}

-- The fields of `TradovateSessionManager` that no method assigns; `SessionState` is the other.
pub record TradovateSessionManager (X : Externals) : Type 0 where
  pub config : TradovateSessionConfig X
  pub credentials : TradovateCredentials X
  pub routing_preferences : TradovateRoutingPreferences

unfoldable pub validate_non_empty : String → String → Result TradovateError (Unit {0})
validate_non_empty field value =
    guard (not (Text.is_empty (trim value))) (TradovateError.missing_config_field field)

unfoldable pub validate_non_empty_credential : String → String → Result TradovateError (Unit {0})
validate_non_empty_credential field value =
    guard (not (Text.is_empty (trim value))) (TradovateError.missing_credential field)

module _ (X : Externals) where
  open X use {duration_le, duration_zero, duration_minutes, duration_seconds}

  unfoldable pub validate_secret : String → X.Secret → Result TradovateError (Unit {0})
  validate_secret field value =
      guard (not (Text.is_empty (trim (X.expose_secret value))))
        (TradovateError.missing_credential field)

  unfoldable pub validate_positive_duration : String → X.Duration → Result TradovateError (Unit {0})
  validate_positive_duration field duration =
      guard (not (duration_le duration duration_zero)) (TradovateError.invalid_duration field)

module _ {X : Externals} where
  open X use {duration_minutes, duration_seconds}

  -- `TradovateCredentials::validate`
  unfoldable pub validate_credentials : TradovateCredentials X → Result TradovateError (Unit {0})
  unfolding validate_non_empty_credential validate_secret
  validate_credentials credentials = do
    validate_non_empty_credential "username" credentials.username
    validate_secret X "password" credentials.password
    validate_non_empty_credential "cid" credentials.cid
    validate_secret X "sec" credentials.sec
    validate_non_empty_credential "app_id" credentials.app_id
    validate_non_empty_credential "app_version" credentials.app_version
    ok tt

  -- `TradovateSessionConfig::validate`
  unfoldable pub validate_config : TradovateSessionConfig X → Result TradovateError (Unit {0})
  unfolding validate_non_empty validate_positive_duration
  validate_config config = do
    validate_non_empty "http_base_url" config.http_base_url
    validate_non_empty "websocket_url" config.websocket_url
    validate_positive_duration X "renew_before_expiry" config.renew_before_expiry
    validate_positive_duration X "heartbeat_stale_after" config.heartbeat_stale_after
    validate_positive_duration X "sync_stale_after" config.sync_stale_after
    ok tt

  -- `TradovateSessionConfig::new`
  unfoldable pub new_config :
      BrokerEnvironment → String → String → Result TradovateError (TradovateSessionConfig X)
  unfolding validate_config
  new_config environment http_base_url websocket_url = do
    let config : TradovateSessionConfig X = record {
      environment = environment;
      http_base_url = http_base_url;
      websocket_url = websocket_url;
      renew_before_expiry = duration_minutes 15;
      heartbeat_stale_after = duration_seconds 30;
      sync_stale_after = duration_seconds 15;
    }
    validate_config config
    ok config

  -- `TradovateSessionConfig::with_timing`
  unfoldable pub with_timing :
      TradovateSessionConfig X
      → X.Duration
      → X.Duration
      → X.Duration
      → Result TradovateError (TradovateSessionConfig X)
  unfolding validate_config
  with_timing config renew_before_expiry heartbeat_stale_after sync_stale_after = do
    let timed : TradovateSessionConfig X = record config {
      renew_before_expiry = renew_before_expiry;
      heartbeat_stale_after = heartbeat_stale_after;
      sync_stale_after = sync_stale_after;
    }
    validate_config timed
    ok timed

  -- `TradovateSessionManager::new`; the session starts in its initial state.
  unfoldable pub new_manager :
      TradovateSessionConfig X
      → TradovateCredentials X
      → TradovateRoutingPreferences
      → Result TradovateError (TradovateSessionManager X)
  unfolding validate_config validate_credentials
  new_manager config credentials routing_preferences = do
    validate_config config
    validate_credentials credentials
    ok (record {
      config = config;
      credentials = credentials;
      routing_preferences = routing_preferences;
    })

abbrev selector_of : Option String → TradovateAccountSelector
selector_of none = TradovateAccountSelector.auto
selector_of (some name) = TradovateAccountSelector.account_name name

unfoldable pub selector_for :
    TradovateRoutingPreferences → BrokerAccountRouting → TradovateAccountSelector
selector_for preferences BrokerAccountRouting.paper = selector_of preferences.paper_account_name
selector_for preferences BrokerAccountRouting.live = selector_of preferences.live_account_name

unfoldable pub validate_environment_for_routing :
    BrokerEnvironment → BrokerAccountRouting → Result TradovateError (Unit {0})
validate_environment_for_routing BrokerEnvironment.demo BrokerAccountRouting.paper = ok tt
validate_environment_for_routing BrokerEnvironment.live BrokerAccountRouting.live = ok tt
validate_environment_for_routing BrokerEnvironment.custom routing = ok tt
validate_environment_for_routing environment routing =
    err (TradovateError.environment_route_mismatch environment routing)

unfoldable pub routing_for_mode : RuntimeMode → Result TradovateError BrokerAccountRouting
routing_for_mode RuntimeMode.paper = ok BrokerAccountRouting.paper
routing_for_mode RuntimeMode.live = ok BrokerAccountRouting.live
routing_for_mode mode = err (TradovateError.unsupported_runtime_mode mode)

abbrev connected_health : BrokerSyncState → BrokerHealth
connected_health BrokerSyncState.synchronized = BrokerHealth.healthy
connected_health BrokerSyncState.pending = BrokerHealth.initializing
connected_health BrokerSyncState.stale = BrokerHealth.degraded
connected_health BrokerSyncState.mismatch = BrokerHealth.degraded
connected_health BrokerSyncState.review_required = BrokerHealth.degraded
connected_health BrokerSyncState.disconnected = BrokerHealth.disconnected
connected_health BrokerSyncState.failed = BrokerHealth.failed

abbrev connection_health : BrokerConnectionState → BrokerSyncState → BrokerHealth
connection_health BrokerConnectionState.failed sync_state = BrokerHealth.failed
connection_health BrokerConnectionState.disconnected sync_state = BrokerHealth.disconnected
connection_health BrokerConnectionState.authenticating sync_state = BrokerHealth.initializing
connection_health BrokerConnectionState.authenticated sync_state = BrokerHealth.initializing
connection_health BrokerConnectionState.connecting sync_state = BrokerHealth.initializing
connection_health BrokerConnectionState.reconnecting sync_state = BrokerHealth.degraded
connection_health BrokerConnectionState.connected sync_state = connected_health sync_state

-- The early returns come first: a failed sync, and a lost one outside of a reconnect.
unfoldable pub health_for : BrokerConnectionState → BrokerSyncState → BrokerHealth
health_for _ BrokerSyncState.failed = BrokerHealth.failed
health_for BrokerConnectionState.reconnecting BrokerSyncState.disconnected = BrokerHealth.degraded
health_for _ BrokerSyncState.disconnected = BrokerHealth.disconnected
health_for connection_state sync_state = connection_health connection_state sync_state

unfoldable pub account_name_matches : String → String → Bool
account_name_matches candidate selector = eq_ignore_ascii_case (trim candidate) (trim selector)

unfoldable pub existing_state_review_reason : Bool → String
existing_state_review_reason is_reconnect =
    if is_reconnect
    then "existing broker-side position or working orders detected after reconnect"
    else "existing broker-side position or working orders detected at startup"
