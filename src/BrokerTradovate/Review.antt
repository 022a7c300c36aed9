-- ===== src/BrokerTradovate/Review.antt =====
-- When the session manager of crates/broker_tradovate/src/lib.rs asks for a review of what the
-- broker holds, and when that lets the readiness check of crates/runtime_kernel/src/lib.rs pass.
use tv_bot_core.Base.{◌≡◌, ◌↔◌, refl, Bool, true, false, none, some, ok, ◌&&◌, arith, sym, ap, ◌∙◌}
use mathlib.Core.Path.{subst}
use tv_bot_core.External.{Externals}
use tv_bot_core.BrokerTradovate.Preserves.{>>=-run}
use tv_bot_core.CoreTypes.{BrokerConnectionState, BrokerSyncState}
use tv_bot_core.BrokerTradovate.Session.{
  TradovateSyncSnapshot, TradovateSyncEvent, SessionState, has_open_exposure,
}
use tv_bot_core.BrokerTradovate.Apis.{SessionApis}
use tv_bot_core.BrokerTradovate.Config.{TradovateSessionManager}
use tv_bot_core.BrokerTradovate.Sync.{apply_sync_snapshot, handle_event}
use tv_bot_core.BrokerTradovate.Manager.{
  connect_user_sync, renew_access_token_if_needed, sync_selected, poll_next_event,
  review_existing_state,
}
use tv_bot_core.BrokerTradovate.Status.{broker_status, is_stale}
use tv_bot_core.RuntimeKernel.Readiness.{DependencyHealth, broker_sync_dependency}

module _ {X : Externals} where
  -- The readiness check of the broker passes on the status that the session reports exactly when
  -- the session is connected and synchronized, and neither its last heartbeat nor its last sync is
  -- older than the configured limit.
  pub broker_status-healthy_iff :
      (m : TradovateSessionManager X) (s : SessionState X) (now : X.DateTime)
      → (broker_sync_dependency (broker_status m s now) ≡ DependencyHealth.healthy) ↔ (
          (s.connection_state ≡ BrokerConnectionState.connected)
          × (s.sync_state ≡ BrokerSyncState.synchronized)
          × (is_stale m s now ≡ false))
  unfolding broker_sync_dependency broker_status
  broker_status-healthy_iff m s now = ground arith

  -- The session after a snapshot was taken in, with or without a review of open exposure.
  pub record IsSynced (snapshot : TradovateSyncSnapshot X) (review : Bool) (s : SessionState X)
      : Type 0 where
    pub connected : s.connection_state ≡ BrokerConnectionState.connected
    pub positions_taken : s.open_positions ≡ snapshot.positions
    pub orders_taken : s.working_orders ≡ snapshot.working_orders
    pub dated : s.last_sync_at ≡ some snapshot.occurred_at
    pub reviewing : (s.sync_state ≡ BrokerSyncState.review_required) ↔ (
        (snapshot.mismatch_reason ≡ none)
        × (review ≡ true)
        × (has_open_exposure snapshot.positions snapshot.working_orders ≡ true))
    pub synchronized : (s.sync_state ≡ BrokerSyncState.synchronized) ↔ (
        (snapshot.mismatch_reason ≡ none)
        × ((review && has_open_exposure snapshot.positions snapshot.working_orders) ≡ false))

  apply-IsSynced :
      (snapshot : TradovateSyncSnapshot X) (review : Bool) (s : SessionState X)
      → s.connection_state ≡ BrokerConnectionState.connected
      → IsSynced snapshot review (apply_sync_snapshot snapshot review s)
  unfolding apply_sync_snapshot
  apply-IsSynced snapshot review s h = ground arith

module _ {X : Externals} (A : SessionApis X) (m : TradovateSessionManager X) where
  renew-review :
      (s : SessionState X) (w : A.World)
      → review_existing_state (renew_access_token_if_needed A m s w).1 ≡ review_existing_state s
  unfolding renew_access_token_if_needed
  renew-review s w = ground arith

  sync_selected-IsSynced :
      (snapshot : TradovateSyncSnapshot X) (s : SessionState X) (w : A.World)
      → (sync_selected A m s w).0 ≡ ok snapshot
      → IsSynced snapshot (review_existing_state s) (sync_selected A m s w).1
  unfolding sync_selected
  sync_selected-IsSynced snapshot s w h = ground arith

  -- After a connection that succeeds, the session is connected and holds the positions, the working
  -- orders and the time of the snapshot. It waits for a review exactly when the snapshot has no
  -- mismatch and shows open exposure, and the connection is the first to sync or follows a lost
  -- one; it is synchronized exactly when the snapshot has no mismatch and calls for no review.
  pub connect_user_sync-IsSynced :
      (snapshot : TradovateSyncSnapshot X) (s : SessionState X) (w : A.World)
      → (connect_user_sync A m s w).0 ≡ ok snapshot
      → IsSynced snapshot (review_existing_state s) (connect_user_sync A m s w).1
  unfolding connect_user_sync
  connect_user_sync-IsSynced snapshot s w h =
      let (b, _, e) = >>=-run (renew_access_token_if_needed A m) (λ _. sync_selected A m) s w h in
      let t = (renew_access_token_if_needed A m s w).1 in
      let w' = (renew_access_token_if_needed A m s w).2 in
      subst (λ o. IsSynced snapshot (review_existing_state s) o.1) (sym e)
        (subst (λ r. IsSynced snapshot r (sync_selected A m t w').1) (renew-review s w)
          (sync_selected-IsSynced snapshot t w' (ap (λ o. o.0) (sym e) ∙ h)))

  poll-state :
      (snapshot : TradovateSyncSnapshot X) (s : SessionState X) (w : A.World)
      → (A.next_event w).0 ≡ ok (some (TradovateSyncEvent.sync_snapshot snapshot))
      → (poll_next_event A m s w).1
        ≡ apply_sync_snapshot snapshot false
            (record s { connection_state = BrokerConnectionState.connected })
  unfolding poll_next_event handle_event
  poll-state snapshot s w h = rw h refl

  apply-decision :
      (snapshot : TradovateSyncSnapshot X) (s : SessionState X)
      → (apply_sync_snapshot snapshot false s).last_review_decision ≡ s.last_review_decision
  unfolding apply_sync_snapshot
  apply-decision snapshot s = ground arith

  -- A snapshot without a mismatch that the broker pushes lets the readiness check pass again
  -- while nothing is stale, also when the session waits for a review, and no decision is recorded.
  pub poll_next_event-releases_review :
      (snapshot : TradovateSyncSnapshot X) (s : SessionState X) (w : A.World) (now : X.DateTime)
      → (A.next_event w).0 ≡ ok (some (TradovateSyncEvent.sync_snapshot snapshot))
      → snapshot.mismatch_reason ≡ none
      → is_stale m (poll_next_event A m s w).1 now ≡ false
      → (broker_sync_dependency (broker_status m (poll_next_event A m s w).1 now)
          ≡ DependencyHealth.healthy)
        × ((poll_next_event A m s w).1.last_review_decision ≡ s.last_review_decision)
  poll_next_event-releases_review snapshot s w now h n f =
      let e = poll-state snapshot s w h in
      let connected = record s { connection_state = BrokerConnectionState.connected } in
      let synced =
        subst (IsSynced snapshot false) (sym e) (apply-IsSynced snapshot false connected refl) in
      (
        (broker_status-healthy_iff m (poll_next_event A m s w).1 now).1
            (synced.connected, synced.synchronized.1 (n, refl), f),
        ap (λ t. t.last_review_decision) e ∙ apply-decision snapshot connected,
      )
