-- ===== src/BrokerTradovate/Invariant.antt =====
-- What holds of a session with the broker after any calls of the manager's methods, whatever the
-- broker answers.
use tv_bot_core.Base.{
  ℤ, ◌≡◌, true, false, Option, none, some, Result, ok, is_some, Result-cases, inl, inr, is_empty,
  arith,
}
use tv_bot_core.External.{Externals}
use tv_bot_core.CoreTypes.{
  RuntimeMode, BrokerAccountRouting, BrokerAccountSelection, BrokerEnvironment, BrokerSyncState,
  BrokerConnectionState,
}
use tv_bot_core.BrokerTradovate.Orders.{TradovateError}
use tv_bot_core.BrokerTradovate.Session.{
  TradovateAccessToken, TradovateExecutionContext, TradovateAccountSelector,
  TradovateReconnectDecision, TradovateSyncEvent, SessionState, initial_state, has_open_exposure,
}
use tv_bot_core.BrokerTradovate.Apis.{
  SessionApis, Method, pure, call, failing, update, read, ◌>>◌, ◌>>=◌,
}
use tv_bot_core.BrokerTradovate.Preserves.{Preserves, >>=-Preserves, failing-Preserves}
use tv_bot_core.BrokerTradovate.Config.{
  TradovateSessionManager, routing_for_mode, selector_for, validate_environment_for_routing,
}
use tv_bot_core.BrokerTradovate.Sync.{
  mark_failed, handle_optional, acknowledge_reconnect_review, handle_event,
}
use tv_bot_core.BrokerTradovate.Manager.{
  authenticate, renew_access_token_if_needed, fetch_accounts, select_known, refresh_accounts,
  known_accounts, select_account, select_account_for_mode, open_user_sync, sync_selected,
  connect_user_sync, current_access_token, selected_number, reconnect_user_sync, poll_next_event,
  disconnect, choose_account,
}
use tv_bot_core.BrokerTradovate.Status.{execution_context}
use tv_bot_core.BrokerTradovate.Execution.{with_context}

-- The selection keeps to the manager's environment.
abbrev pub IsRouted :
    {X : Externals} → BrokerEnvironment → Option (BrokerAccountSelection X) → Type 0
IsRouted environment none = Unit
IsRouted environment (some selection) =
    (selection.environment ≡ environment)
    × (validate_environment_for_routing environment selection.routing ≡ ok tt)

module _ {X : Externals} where
  pub record SessionInv (environment : BrokerEnvironment) (s : SessionState X) : Type 0 where
    pub review_explained :
        s.sync_state ≡ BrokerSyncState.review_required → is_some s.review_required_reason ≡ true
    pub review_exposed :
        s.sync_state ≡ BrokerSyncState.review_required
        → has_open_exposure s.open_positions s.working_orders ≡ true
    pub mismatch_explained :
        s.sync_state ≡ BrokerSyncState.mismatch → is_some s.review_required_reason ≡ true
    pub synchronized_reviewed :
        s.sync_state ≡ BrokerSyncState.synchronized → s.review_required_reason ≡ none
    pub synchronized_dated :
        s.sync_state ≡ BrokerSyncState.synchronized
        → (is_some s.last_sync_at ≡ true) × (is_some s.last_heartbeat_at ≡ true)
    pub review_dated :
        s.sync_state ≡ BrokerSyncState.review_required
        → (is_some s.last_sync_at ≡ true) × (is_some s.last_heartbeat_at ≡ true)
    pub accounts_authenticated :
        is_empty s.available_accounts ≡ false → is_some s.access_token ≡ true
    pub selected_authenticated : is_some s.selected_account ≡ true → is_some s.access_token ≡ true
    pub selected_routed : IsRouted environment s.selected_account

  pub initial_state-SessionInv :
      (environment : BrokerEnvironment) → SessionInv environment (initial_state {X = X})
  unfolding initial_state
  initial_state-SessionInv environment = ground arith

  handle_event-SessionInv :
      {environment : BrokerEnvironment} {s : SessionState X} (e : _)
      → SessionInv environment s
      → SessionInv environment (handle_event e s)
  unfolding handle_event
  handle_event-SessionInv e h = ground arith

  handle_optional-SessionInv :
      {environment : BrokerEnvironment} (event : Option (TradovateSyncEvent X)) (s : SessionState X)
      → SessionInv environment s
      → SessionInv environment (handle_optional event s)
  handle_optional-SessionInv none s h = h
  handle_optional-SessionInv (some e) s h = handle_event-SessionInv e h

  pub acknowledge-SessionInv :
      {environment : BrokerEnvironment} {s : SessionState X} (decision : TradovateReconnectDecision)
      → SessionInv environment s
      → SessionInv environment (acknowledge_reconnect_review decision s)
  unfolding acknowledge_reconnect_review
  acknowledge-SessionInv decision h = ground arith

  mark_failed-SessionInv :
      {environment : BrokerEnvironment} (s : SessionState X)
      → SessionInv environment s
      → SessionInv environment (mark_failed s)
  mark_failed-SessionInv s h = ground arith

module _ {X : Externals} (A : SessionApis X) (m : TradovateSessionManager X) where
  abbrev Keeps : {B : Type 0} → Method A B → Type 0
  Keeps = Preserves (SessionInv m.config.environment)

  pub authenticate-Keeps : Keeps (authenticate A m)
  unfolding authenticate
  authenticate-Keeps s w h = ground arith

  pub renew-Keeps : Keeps (renew_access_token_if_needed A m)
  unfolding renew_access_token_if_needed
  renew-Keeps s w h = ground arith

  pub poll-Keeps : Keeps (poll_next_event A m)
  unfolding poll_next_event
  poll-Keeps =
      >>=-Preserves _ (failing mark_failed (call A.next_event))
        (λ event. update (handle_optional event) >> pure event)
        (failing-Preserves _ mark_failed (call A.next_event) mark_failed-SessionInv λ s w h. h)
        λ event s w h. handle_optional-SessionInv event s h

  pub disconnect-Keeps : Keeps (disconnect A m)
  unfolding disconnect
  disconnect-Keeps s w h = ground arith

  open-Keeps : (token : TradovateAccessToken X) (id : ℤ) → Keeps (open_user_sync A m token id)
  unfolding open_user_sync
  open-Keeps token id s w h = ground arith

  sync_selected-Keeps : Keeps (sync_selected A m)
  unfolding sync_selected
  sync_selected-Keeps =
      >>=-Preserves _ (read current_access_token)
        (λ token.
          read (λ s. selected_number s.selected_account) >>= λ id. open_user_sync A m token id)
        (λ s w h. h)
        λ token.
          >>=-Preserves _ (read (λ s. selected_number s.selected_account))
            (open_user_sync A m token) (λ s w h. h) (open-Keeps token)

  pub connect-Keeps : Keeps (connect_user_sync A m)
  unfolding connect_user_sync
  connect-Keeps =
      >>=-Preserves _ (renew_access_token_if_needed A m) (λ _. sync_selected A m) renew-Keeps
        (λ _. sync_selected-Keeps)

  pub reconnect-Keeps : Keeps (reconnect_user_sync A m)
  unfolding reconnect_user_sync
  reconnect-Keeps s w h =
      connect-Keeps (record s { connection_state = BrokerConnectionState.reconnecting }) w
        (ground arith)

  fetch-Keeps : Keeps (fetch_accounts A m)
  unfolding fetch_accounts
  fetch-Keeps s w h = ground arith

  pub refresh-Keeps : Keeps (refresh_accounts A m)
  unfolding refresh_accounts
  refresh-Keeps =
      >>=-Preserves _ (renew_access_token_if_needed A m) (λ _. fetch_accounts A m) renew-Keeps
        (λ _. fetch-Keeps)

  known-Keeps : Keeps (known_accounts A m)
  unfolding known_accounts
  known-Keeps s w h = ground (arith, refresh-Keeps s w h)

  select_known-Keeps :
      (routing : BrokerAccountRouting) (selector : TradovateAccountSelector)
      → validate_environment_for_routing m.config.environment routing ≡ ok tt
      → Keeps (select_known A m routing selector)
  unfolding select_known choose_account
  select_known-Keeps routing selector v s w h = ground arith

  selected-Keeps :
      (routing : BrokerAccountRouting) (selector : TradovateAccountSelector)
      → validate_environment_for_routing m.config.environment routing ≡ ok tt
      → Keeps (known_accounts A m >>= λ _. select_known A m routing selector)
  selected-Keeps routing selector v =
      >>=-Preserves _ (known_accounts A m) (λ _. select_known A m routing selector) known-Keeps
        (λ _. select_known-Keeps routing selector v)

  pub select_account-Keeps :
      (routing : BrokerAccountRouting) (selector : TradovateAccountSelector)
      → Keeps (select_account A m routing selector)
  unfolding select_account
  select_account-Keeps routing selector s w h =
      elim (Result-cases (validate_environment_for_routing m.config.environment routing)) [
        | inl p ↦ rw p.1 (selected-Keeps routing selector p.1 s w h)
        | inr p ↦ rw p.1 h
      ]

  pub select_account_for_mode-Keeps :
      (mode : RuntimeMode) → Keeps (select_account_for_mode A m mode)
  unfolding select_account_for_mode
  select_account_for_mode-Keeps mode =
      >>=-Preserves _ (read (λ s. routing_for_mode mode))
        (λ routing. select_account A m routing (selector_for m.routing_preferences routing))
        (λ s w h. h)
        (λ routing. select_account-Keeps routing (selector_for m.routing_preferences routing))

  pub with_context-Keeps :
      {B : Type 0}
      (send : TradovateExecutionContext X → A.World → Result TradovateError B × A.World)
      → Keeps (with_context A m send)
  with_context-Keeps send =
      >>=-Preserves _ (renew_access_token_if_needed A m)
        (λ _. read (execution_context m) >>= λ context. call (send context)) renew-Keeps
        λ _.
          >>=-Preserves _ (read (execution_context m)) (λ context. call (send context)) (λ s w h. h)
            (λ context s w h. h)
