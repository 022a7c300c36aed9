-- ===== src/BrokerTradovate/Status.antt =====
-- What the session manager of crates/broker_tradovate/src/lib.rs says of the session: the context
-- of an execution call, the staleness of the sync, and the status reports.
use tv_bot_core.Base.{ℤ, Bool, true, false, Option, none, some, Result, ok, err, ◌>>=◌, not, ◌||◌}
use tv_bot_core.External.{Externals}
use tv_bot_core.CoreTypes.{
  BrokerAccountSelection, BrokerConnectionState, BrokerSyncState, BrokerStatusSnapshot,
}
use tv_bot_core.BrokerTradovate.Orders.{TradovateError}
use tv_bot_core.BrokerTradovate.Session.{
  TradovateAccessToken, SessionState, TradovateSessionSnapshot, TradovateExecutionContext,
}
use tv_bot_core.BrokerTradovate.Config.{TradovateSessionManager, health_for}
use tv_bot_core.BrokerTradovate.Manager.{selected_number, token_or_error}

-- `now - since > limit`, false when nothing has come yet.
abbrev older : (X : Externals) → Option X.DateTime → X.DateTime → X.Duration → Bool
older X none now limit = false
older X (some since) now limit = not (X.duration_le (X.duration_since now since) limit)

abbrev staled : BrokerSyncState → BrokerConnectionState → Bool → BrokerSyncState
staled BrokerSyncState.synchronized _ true = BrokerSyncState.stale
staled BrokerSyncState.pending BrokerConnectionState.connected true = BrokerSyncState.stale
staled sync_state _ _ = sync_state

module _ {X : Externals} where
  abbrev context_for :
      TradovateSessionManager X
      → Option (BrokerAccountSelection X)
      → Option (TradovateAccessToken X)
      → Result TradovateError (TradovateExecutionContext X)
  context_for m none token = err TradovateError.no_selected_account
  context_for m (some selection) token = do
    account_id ← selected_number (some selection)
    access_token ← token_or_error token
    ok (record {
      http_base_url = m.config.http_base_url;
      access_token = access_token;
      account_id = account_id;
      account_spec = selection.account_name;
    })

  unfoldable pub execution_context :
      TradovateSessionManager X
      → SessionState X
      → Result TradovateError (TradovateExecutionContext X)
  execution_context m s = context_for m s.selected_account s.access_token

  unfoldable pub is_stale : TradovateSessionManager X → SessionState X → X.DateTime → Bool
  is_stale m s now =
      older X s.last_heartbeat_at now m.config.heartbeat_stale_after
      || older X s.last_sync_at now m.config.sync_stale_after

  unfoldable pub effective_sync_state :
      TradovateSessionManager X → SessionState X → X.DateTime → BrokerSyncState
  unfolding is_stale
  effective_sync_state m s now = staled s.sync_state s.connection_state (is_stale m s now)

  -- `broker_status` at the time that the clock gives.
  unfoldable pub broker_status :
      TradovateSessionManager X → SessionState X → X.DateTime → BrokerStatusSnapshot X
  unfolding effective_sync_state health_for
  broker_status m s now = record {
    provider = "tradovate";
    environment = m.config.environment;
    connection_state = s.connection_state;
    health = health_for s.connection_state (effective_sync_state m s now);
    sync_state = effective_sync_state m s now;
    selected_account = s.selected_account;
    reconnect_count = s.reconnect_count;
    last_authenticated_at = s.last_authenticated_at;
    last_heartbeat_at = s.last_heartbeat_at;
    last_sync_at = s.last_sync_at;
    last_disconnect_reason = s.last_disconnect_reason;
    review_required_reason = s.review_required_reason;
    updated_at = now;
  }

  abbrev expiration : Option (TradovateAccessToken X) → Option X.DateTime
  expiration none = none
  expiration (some token) = some token.expiration_time

  abbrev user : Option (TradovateAccessToken X) → Option ℤ
  user none = none
  user (some token) = token.user_id

  unfoldable pub snapshot :
      TradovateSessionManager X → SessionState X → X.DateTime → TradovateSessionSnapshot X
  unfolding broker_status
  snapshot m s now = record {
    broker = broker_status m s now;
    available_accounts = s.available_accounts;
    token_expires_at = expiration s.access_token;
    current_user_id = user s.access_token;
    last_review_decision = s.last_review_decision;
    open_positions = s.open_positions;
    working_orders = s.working_orders;
    fills = s.fills;
    account_snapshot = s.account_snapshot;
  }
