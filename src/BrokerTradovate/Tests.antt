-- ===== src/BrokerTradovate/Tests.antt =====
-- A session run against the scripted broker, and the theorems there.
use tv_bot_core.Base.{
  ◌-ℤ◌, eq_ignore_ascii_case, trim, parse_i64, show_i64, ◌++◌, ◌≡◌, ◌↔◌, refl, pos, false, none,
  some, List, [], ◌∷◌, ok,
}
use tv_bot_core.CoreTypes.{
  RuntimeMode, BrokerEnvironment, BrokerAccountRouting, BrokerAccountSelection,
  BrokerConnectionState, BrokerSyncState,
}
use tv_bot_core.Sample.{cents, holding}
use tv_bot_core.BrokerTradovate.Session.{
  TradovateAccountSelector, TradovateReconnectDecision, SessionState, initial_state,
}
use tv_bot_core.BrokerTradovate.Config.{
  routing_for_mode, selector_for, validate_environment_for_routing,
}
use tv_bot_core.BrokerTradovate.Sync.{acknowledge_reconnect_review, handle_event}
use tv_bot_core.BrokerTradovate.Manager.{
  authenticate, select_account, select_account_for_mode, connect_user_sync, poll_next_event,
  review_existing_state,
}
use tv_bot_core.BrokerTradovate.Status.{broker_status, is_stale}
use tv_bot_core.BrokerTradovate.Invariant.{SessionInv}
use tv_bot_core.BrokerTradovate.Calls.{
  SessionCall, authenticating, selecting_for, connecting, acknowledging, session_step,
  session_steps, steps_from_initial-SessionInv,
}
use tv_bot_core.BrokerTradovate.Review.{
  IsSynced, broker_status-healthy_iff, connect_user_sync-IsSynced, poll_next_event-releases_review,
}
use tv_bot_core.BrokerTradovate.Selection.{IsSelected, select_account-IsSelected}
use tv_bot_core.BrokerTradovate.Scripted.{exposed, broker, manager, start, selected}
use tv_bot_core.RuntimeKernel.Readiness.{DependencyHealth, broker_sync_dependency}

opening : List (SessionCall cents)
opening = authenticating ∷ selecting_for RuntimeMode.paper ∷ connecting ∷ []

abbrev chosen : BrokerAccountSelection cents
chosen = record {
  provider = "tradovate";
  account_id = "31";
  account_name = "paper";
  routing = BrokerAccountRouting.paper;
  environment = BrokerEnvironment.demo;
  selected_at = pos 90;
}

-- A session that waits for the operator since time 100.
abbrev waiting : SessionState cents
waiting = record selected {
  connection_state = BrokerConnectionState.connected;
  sync_state = BrokerSyncState.review_required;
  last_heartbeat_at = some (pos 100);
  last_sync_at = some (pos 100);
  open_positions = holding (pos 2) ∷ [];
  review_required_reason = some "existing";
}

startup_review :
    ((session_steps broker manager opening start 90).sync_state ≡ BrokerSyncState.review_required)
    × ((session_steps broker manager
          (opening ++ acknowledging TradovateReconnectDecision.reattach_bot_management ∷ [])
          start
          90).sync_state
        ≡ BrokerSyncState.synchronized)
unfolding session_steps opening session_step connect_user_sync select_account_for_mode
    routing_for_mode authenticate initial_state ◌-ℤ◌ selector_for eq_ignore_ascii_case trim
    parse_i64 show_i64 acknowledge_reconnect_review
startup_review = (refl, refl)

steps_from_initial-SessionInv_example :
    SessionInv BrokerEnvironment.demo (session_steps broker manager opening start 90)
steps_from_initial-SessionInv_example = steps_from_initial-SessionInv broker manager opening 90

broker_status-healthy_iff_example :
    (broker_sync_dependency (broker_status manager waiting (pos 110)) ≡ DependencyHealth.healthy)
    ↔ ((BrokerConnectionState.connected ≡ BrokerConnectionState.connected)
        × (BrokerSyncState.review_required ≡ BrokerSyncState.synchronized)
        × (is_stale manager waiting (pos 110) ≡ false))
broker_status-healthy_iff_example = broker_status-healthy_iff manager waiting (pos 110)

connect_user_sync-IsSynced_example :
    IsSynced exposed
      (review_existing_state selected)
      (connect_user_sync broker manager selected 90).1
unfolding connect_user_sync ◌-ℤ◌ parse_i64
connect_user_sync-IsSynced_example =
    connect_user_sync-IsSynced broker manager exposed selected 90 refl

poll_next_event-releases_review_example :
    (broker_sync_dependency
        (broker_status manager (poll_next_event broker manager waiting 101).1 (pos 103))
      ≡ DependencyHealth.healthy)
    × ((poll_next_event broker manager waiting 101).1.last_review_decision ≡ none)
unfolding poll_next_event is_stale ◌-ℤ◌ handle_event initial_state
poll_next_event-releases_review_example =
    poll_next_event-releases_review broker manager exposed waiting 101 (pos 103) refl refl refl

select_account-IsSelected_example :
    (validate_environment_for_routing BrokerEnvironment.demo BrokerAccountRouting.paper ≡ ok tt)
    × IsSelected broker manager BrokerAccountRouting.paper TradovateAccountSelector.auto chosen
        (select_account broker manager BrokerAccountRouting.paper TradovateAccountSelector.auto
          (record selected { selected_account = none })
          90).1
unfolding select_account show_i64
select_account-IsSelected_example =
    select_account-IsSelected broker manager BrokerAccountRouting.paper
      TradovateAccountSelector.auto chosen (record selected { selected_account = none }) 90 refl
