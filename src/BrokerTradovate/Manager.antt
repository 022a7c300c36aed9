-- ===== src/BrokerTradovate/Manager.antt =====
-- The methods of `TradovateSessionManager` in crates/broker_tradovate/src/lib.rs. Logging is left
-- out; a method that takes `&mut self` is a step on the session's state and the world.
use tv_bot_core.Base.{
  ℤ, eqb_ℤ, Bool, true, false, Option, none, some, List, [], ◌∷◌, Result, ok, err, ok_or, ltb, not,
  ◌||◌, is_some, is_empty, keep, find, show_i64, parse_i64, if◌then◌else◌,
}
use tv_bot_core.External.{Externals}
use tv_bot_core.CoreTypes.{
  RuntimeMode, BrokerAccountRouting, BrokerAccountSelection, BrokerConnectionState, BrokerSyncState,
}
use tv_bot_core.BrokerTradovate.Orders.{TradovateError}
use tv_bot_core.BrokerTradovate.Session.{
  TradovateAccount, TradovateAccessToken, TradovateAccountSelector, TradovateSyncSnapshot,
  TradovateSyncEvent, SessionState,
}
use tv_bot_core.BrokerTradovate.Apis.{
  SessionApis, Method, ◌>>=◌, ◌>>◌, pure, read, call, failing, update, reading,
}
use tv_bot_core.BrokerTradovate.Config.{
  TradovateSessionManager, selector_for, validate_environment_for_routing, routing_for_mode,
  account_name_matches,
}
use tv_bot_core.BrokerTradovate.Sync.{mark_failed, apply_sync_snapshot, handle_optional}

abbrev pub only :
    List TradovateAccount → BrokerAccountRouting → Result TradovateError TradovateAccount
only (account ∷ []) routing = ok account
only _ routing = err (TradovateError.account_selection_required routing)

-- The `match` on the selector, over the active accounts.
unfoldable pub choose_account :
    TradovateAccountSelector
    → BrokerAccountRouting
    → List TradovateAccount
    → Result TradovateError TradovateAccount
unfolding account_name_matches
choose_account _ routing [] = err TradovateError.no_accounts_available
choose_account TradovateAccountSelector.auto routing accounts = only accounts routing
choose_account (TradovateAccountSelector.account_id id) routing accounts =
    ok_or (find (λ account. eqb_ℤ account.account_id id) accounts)
      (TradovateError.account_not_found (show_i64 id))
choose_account (TradovateAccountSelector.account_name name) routing accounts =
    ok_or (find (λ account. account_name_matches account.account_name name) accounts)
      (TradovateError.account_not_found name)

module _ {X : Externals} where
  abbrev pub token_or_error :
      Option (TradovateAccessToken X) → Result TradovateError (TradovateAccessToken X)
  token_or_error token = ok_or token TradovateError.no_access_token

  abbrev pub current_access_token : SessionState X → Result TradovateError (TradovateAccessToken X)
  current_access_token s = token_or_error s.access_token

  -- The account's number, of the selection.
  abbrev pub selected_number : Option (BrokerAccountSelection X) → Result TradovateError ℤ
  selected_number none = err TradovateError.no_selected_account
  selected_number (some selection) =
      ok_or (parse_i64 selection.account_id) TradovateError.no_selected_account

  abbrev pub review_existing_state : SessionState X → Bool
  review_existing_state s = not (is_some s.last_sync_at) || ltb 0 s.reconnect_count

  abbrev pub selection_of :
      TradovateSessionManager X
      → BrokerAccountRouting
      → TradovateAccount
      → X.DateTime
      → BrokerAccountSelection X
  selection_of m routing account now = record {
    provider = "tradovate";
    account_id = show_i64 account.account_id;
    account_name = account.account_name;
    routing = routing;
    environment = m.config.environment;
    selected_at = now;
  }

module _ {X : Externals} (A : SessionApis X) (m : TradovateSessionManager X) where
  unfoldable pub authenticate : Method A (TradovateAccessToken X)
  authenticate = do
    update (λ s. record s {
      connection_state = BrokerConnectionState.authenticating;
      sync_state = BrokerSyncState.pending;
    })
    token ← failing mark_failed (
        call (
          A.request_access_token (record {
            http_base_url = m.config.http_base_url;
            environment = m.config.environment;
            credentials = m.credentials;
          })))
    now ← reading A.now
    update (λ s. record s {
      access_token = some token;
      last_authenticated_at = some now;
      connection_state = BrokerConnectionState.authenticated;
      sync_state = BrokerSyncState.pending;
      last_disconnect_reason = none;
    })
    pure token

  unfoldable pub renew_access_token : TradovateAccessToken X → X.DateTime → Method A Bool
  renew_access_token token now = do
    renewed ← failing mark_failed (
        call (
          A.renew_access_token (record {
            http_base_url = m.config.http_base_url;
            environment = m.config.environment;
            current_token = token;
          })))
    update (λ s. record s { access_token = some renewed; last_authenticated_at = some now })
    pure true

  unfoldable pub renew_access_token_if_needed : Method A Bool
  unfolding renew_access_token
  renew_access_token_if_needed = do
    token ← read current_access_token
    now ← reading A.now
    if X.duration_le (X.duration_since token.expiration_time now) m.config.renew_before_expiry
        then renew_access_token token now
        else pure false

  -- The part of `refresh_accounts` after the renewal of the token.
  unfoldable pub fetch_accounts : Method A (List TradovateAccount)
  fetch_accounts = do
    token ← read current_access_token
    accounts ←
        failing (λ s. record s { sync_state = BrokerSyncState.failed })
          (call (
            A.list_accounts (record {
              http_base_url = m.config.http_base_url;
              environment = m.config.environment;
              access_token = token;
            })))
    update (λ s. record s { available_accounts = accounts })
    pure accounts

  unfoldable pub refresh_accounts : Method A (List TradovateAccount)
  unfolding renew_access_token_if_needed fetch_accounts
  refresh_accounts = do _ ← renew_access_token_if_needed; fetch_accounts

  -- `refresh_accounts` when no account is known.
  unfoldable pub known_accounts : Method A (List TradovateAccount)
  unfolding refresh_accounts
  known_accounts s w =
      if is_empty s.available_accounts then refresh_accounts s w else pure s.available_accounts s w

  -- The part of `select_account` once accounts are known.
  unfoldable pub select_known :
      BrokerAccountRouting → TradovateAccountSelector → Method A (BrokerAccountSelection X)
  unfolding choose_account
  select_known routing selector = do
    account ←
        read (λ s. choose_account selector routing (keep (λ a. a.active) s.available_accounts))
    now ← reading A.now
    let selection = selection_of m routing account now
    update (λ s. record s { selected_account = some selection })
    pure selection

  unfoldable pub select_account :
      BrokerAccountRouting → TradovateAccountSelector → Method A (BrokerAccountSelection X)
  unfolding known_accounts select_known validate_environment_for_routing
  select_account routing selector = do
    read (λ s. validate_environment_for_routing m.config.environment routing)
    _ ← known_accounts
    select_known routing selector

  unfoldable pub select_account_for_mode : RuntimeMode → Method A (BrokerAccountSelection X)
  unfolding select_account
  select_account_for_mode mode = do
    routing ← read (λ s. routing_for_mode mode)
    select_account routing (selector_for m.routing_preferences routing)

  -- The part of `connect_user_sync` after the reads of the state.
  unfoldable pub open_user_sync : TradovateAccessToken X → ℤ → Method A (TradovateSyncSnapshot X)
  unfolding apply_sync_snapshot
  open_user_sync token account_id = do
    update (λ s. record s {
      connection_state = BrokerConnectionState.connecting;
      sync_state = BrokerSyncState.pending;
    })
    failing mark_failed (
        call (
          A.connect (record {
            websocket_url = m.config.websocket_url;
            environment = m.config.environment;
            access_token = token;
          })))
    snapshot ←
        failing mark_failed
          (call (A.request_user_sync (record { account_id = account_id; access_token = token })))
    update (λ s. apply_sync_snapshot snapshot (review_existing_state s) (record s {
      connection_state = BrokerConnectionState.connected;
      last_disconnect_reason = none;
    }))
    pure snapshot

  -- The part of `connect_user_sync` after the renewal of the token.
  unfoldable pub sync_selected : Method A (TradovateSyncSnapshot X)
  unfolding open_user_sync
  sync_selected = do
    token ← read current_access_token
    account_id ← read (λ s. selected_number s.selected_account)
    open_user_sync token account_id

  unfoldable pub connect_user_sync : Method A (TradovateSyncSnapshot X)
  unfolding renew_access_token_if_needed sync_selected
  connect_user_sync = do _ ← renew_access_token_if_needed; sync_selected

  unfoldable pub reconnect_user_sync : Method A (TradovateSyncSnapshot X)
  unfolding connect_user_sync
  reconnect_user_sync = do
    update (λ s. record s { connection_state = BrokerConnectionState.reconnecting })
    connect_user_sync

  unfoldable pub poll_next_event : Method A (Option (TradovateSyncEvent X))
  poll_next_event = do
    event ← failing mark_failed (call A.next_event)
    update (handle_optional event)
    pure event

  unfoldable pub disconnect : Method A (Unit {0})
  disconnect = do
    failing mark_failed (call A.disconnect)
    update (λ s. record s {
      connection_state = BrokerConnectionState.disconnected;
      sync_state = BrokerSyncState.disconnected;
    })
