-- ===== src/BrokerTradovate/Sync.antt =====
-- How the session manager of crates/broker_tradovate/src/lib.rs takes in what the broker sends.
use tv_bot_core.Base.{ℕ, ◌+◌, min, Bool, true, false, Option, none, some, String, ltb, ◌&&◌}
use tv_bot_core.External.{Externals}
use tv_bot_core.CoreTypes.{BrokerConnectionState, BrokerSyncState}
use tv_bot_core.BrokerTradovate.Session.{
  TradovateReconnectDecision, TradovateSyncSnapshot, TradovateSyncEvent, SessionState,
  has_open_exposure,
}
use tv_bot_core.BrokerTradovate.Config.{existing_state_review_reason}

abbrev pub u64_max : ℕ
u64_max = 18446744073709551615

module _ {X : Externals} where
  abbrev pub mark_failed : SessionState X → SessionState X
  mark_failed s = record s {
    connection_state = BrokerConnectionState.failed;
    sync_state = BrokerSyncState.failed;
  }

  -- The outcome for the sync state, once the snapshot is stored.
  abbrev review_sync : Option String → Bool → SessionState X → SessionState X
  review_sync (some reason) review s = record s {
    sync_state = BrokerSyncState.mismatch;
    review_required_reason = some reason;
  }
  review_sync none true s = record s {
    sync_state = BrokerSyncState.review_required;
    review_required_reason = some (existing_state_review_reason (ltb 0 s.reconnect_count));
  }
  review_sync none false s = record s {
    sync_state = BrokerSyncState.synchronized;
    review_required_reason = none;
  }

  unfoldable pub apply_sync_snapshot :
      TradovateSyncSnapshot X → Bool → SessionState X → SessionState X
  unfolding has_open_exposure existing_state_review_reason
  apply_sync_snapshot snapshot review_existing_state s =
      review_sync snapshot.mismatch_reason
        (review_existing_state && has_open_exposure snapshot.positions snapshot.working_orders)
        (record s {
          last_heartbeat_at = some snapshot.occurred_at;
          last_sync_at = some snapshot.occurred_at;
          open_positions = snapshot.positions;
          working_orders = snapshot.working_orders;
          fills = snapshot.fills;
          account_snapshot = snapshot.account_snapshot;
        })

  abbrev reviewed : BrokerSyncState → TradovateReconnectDecision → SessionState X → SessionState X
  reviewed BrokerSyncState.review_required decision s = record s {
    last_review_decision = some decision;
    sync_state = BrokerSyncState.synchronized;
    review_required_reason = none;
  }
  reviewed _ decision s = record s { last_review_decision = some decision }

  unfoldable pub acknowledge_reconnect_review :
      TradovateReconnectDecision → SessionState X → SessionState X
  acknowledge_reconnect_review decision s = reviewed s.sync_state decision s

  -- What an event from the broker does to the session.
  unfoldable pub handle_event : TradovateSyncEvent X → SessionState X → SessionState X
  unfolding apply_sync_snapshot
  handle_event (TradovateSyncEvent.heartbeat occurred_at) s = record s {
    last_heartbeat_at = some occurred_at;
  }
  handle_event (TradovateSyncEvent.sync_snapshot snapshot) s =
      apply_sync_snapshot snapshot false
        (record s { connection_state = BrokerConnectionState.connected })
  handle_event (TradovateSyncEvent.mismatch _ detail) s = record s {
    connection_state = BrokerConnectionState.connected;
    sync_state = BrokerSyncState.mismatch;
    review_required_reason = some detail;
  }
  -- `u64::saturating_add`
  handle_event (TradovateSyncEvent.disconnected _ reason) s = record s {
    connection_state = BrokerConnectionState.reconnecting;
    sync_state = BrokerSyncState.disconnected;
    last_disconnect_reason = some reason;
    reconnect_count = min (s.reconnect_count + 1) u64_max;
  }
  handle_event (TradovateSyncEvent.reconnected _ detail) s = record s {
    connection_state = BrokerConnectionState.connected;
    sync_state = BrokerSyncState.pending;
  }

  abbrev pub handle_optional : Option (TradovateSyncEvent X) → SessionState X → SessionState X
  handle_optional none s = s
  handle_optional (some event) s = handle_event event s
