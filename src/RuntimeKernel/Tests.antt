-- ===== src/RuntimeKernel/Tests.antt =====
-- Runs of the state machine and of the readiness checks, and the theorems at concrete inputs.
use tv_bot_core.ExecutionEngine.Request.{validate_instrument}
use tv_bot_core.ExecutionEngine.Dispatch.{plan_and_execute_tradovate}
use tv_bot_core.RiskEngine.Evaluate.{evaluate}
use tv_bot_core.Sample.{gold}
use tv_bot_core.BrokerTradovate.Scripted.{broker, manager, selected}
use tv_bot_core.ExecutionEngine.Dispatch.{ExecutionDispatchResult}
use tv_bot_core.RuntimeKernel.Pipeline.{
  EventJournal, RuntimeExecutionRequest, RuntimeExecutionOutcome, risk_of,
  evaluate_risk_and_execute_tradovate,
}
use tv_bot_core.RuntimeKernel.Audited.{EndsGated, evaluate_risk_and_execute-EndsGated}
use tv_bot_core.Base.{
  suc, ℕ, ◌≡◌, ◌⊎◌, refl, pos, true, false, none, some, List, [], ◌∷◌, ok, trim, arith,
}
use tv_bot_core.CoreTypes.{
  ExecutionIntent, ActionSource, RuntimeMode, ActiveRuntimeMode, ArmState, WarmupStatus,
  ArmReadinessReport, BrokerEnvironment, BrokerAccountRouting, BrokerConnectionState, BrokerHealth,
  BrokerSyncState, BrokerStatusSnapshot, BrokerAccountSelection, has_blocking_issues,
}
use tv_bot_core.Sample.{cents}
use tv_bot_core.RuntimeKernel.StateMachine.{
  RuntimeStateMachine, active_mode_for, new, arm, can_submit_orders,
}
use tv_bot_core.RuntimeKernel.Readiness.{
  DependencyHealth, ReadinessInputs, evaluate_readiness, broker_sync_dependency,
  broker_account_dependency,
}
use tv_bot_core.RuntimeKernel.Invariant.{
  pausing, Call, resuming, load, warm, warm_ready, arming, step, steps, Inv, new-steps-Inv, Ever,
  Justifies, can_submit_orders-Justifies,
}
use tv_bot_core.RuntimeKernel.Arming.{
  arm_iff, evaluate_readiness-IsClear_iff, broker_sync_dependency_iff,
  broker_account_dependency-routing,
}

abbrev inputs : ReadinessInputs
inputs = record {
  mode = RuntimeMode.paper;
  strategy_loaded = true;
  warmup_status = WarmupStatus.ready;
  account_selection = DependencyHealth.healthy;
  symbol_mapping_resolved = true;
  market_data = DependencyHealth.healthy;
  broker_sync = DependencyHealth.healthy;
  storage = DependencyHealth.warning "fallback storage";
  journal = DependencyHealth.healthy;
  clock = DependencyHealth.healthy;
  risk_summary = "one contract";
  hard_override_reasons = "storage fallback" ∷ [];
}

abbrev report : ArmReadinessReport cents
report = record {
  mode = RuntimeMode.paper;
  checks = [];
  risk_summary = "one contract";
  hard_override_required = true;
  generated_at = pos 0;
}

abbrev calls : List (Call cents)
calls = load ∷ warm ∷ warm_ready ∷ arming report true ∷ pausing ∷ resuming ∷ []

abbrev machine : RuntimeStateMachine
machine = steps (new RuntimeMode.paper) calls

submits_again : can_submit_orders machine ≡ true
unfolding steps step new can_submit_orders arm has_blocking_issues
submits_again = refl

abbrev warm_machine : RuntimeStateMachine
warm_machine = record {
  current_mode = RuntimeMode.paper;
  last_active_mode = some ActiveRuntimeMode.paper;
  arm_state = ArmState.disarmed;
  warmup_status = WarmupStatus.ready;
  strategy_loaded = true;
  hard_override_active = false;
  new_entries_enabled = true;
  new_entries_reason = none;
}

new-steps-Inv_example : Inv machine
new-steps-Inv_example = new-steps-Inv RuntimeMode.paper calls

can_submit_orders-Justifies_example : Ever (Justifies (active_mode_for machine.current_mode)) calls
can_submit_orders-Justifies_example =
    can_submit_orders-Justifies RuntimeMode.paper calls submits_again

arm_iff_example :
    ((arm warm_machine report true).1 ≡ ok tt)
    × (can_submit_orders (arm warm_machine report true).0 ≡ true)
    × ((arm warm_machine report true).0.hard_override_active ≡ true)
unfolding has_blocking_issues
arm_iff_example = (arm_iff warm_machine report true).1 (ground arith)

evaluate_readiness-IsClear_iff_example :
    has_blocking_issues (evaluate_readiness {X = cents} inputs (pos 0)) ≡ false
unfolding trim
evaluate_readiness-IsClear_iff_example =
    (evaluate_readiness-IsClear_iff cents inputs (pos 0)).1 (ground arith)

abbrev snapshot : BrokerSyncState → BrokerStatusSnapshot cents
snapshot sync = record {
  provider = "tradovate";
  environment = BrokerEnvironment.demo;
  connection_state = BrokerConnectionState.connected;
  health = BrokerHealth.healthy;
  sync_state = sync;
  selected_account = some (record {
    provider = "tradovate";
    account_id = "101";
    account_name = "DEMO101";
    routing = BrokerAccountRouting.paper;
    environment = BrokerEnvironment.demo;
    selected_at = pos 0;
  });
  reconnect_count = 0;
  last_authenticated_at = none;
  last_heartbeat_at = none;
  last_sync_at = none;
  last_disconnect_reason = none;
  review_required_reason = none;
  updated_at = pos 0;
}

broker_sync_dependency_iff_example :
    broker_sync_dependency (snapshot BrokerSyncState.synchronized) ≡ DependencyHealth.healthy
broker_sync_dependency_iff_example =
    (broker_sync_dependency_iff (snapshot BrokerSyncState.synchronized)).1 (refl, refl)

broker_account_dependency-routing_example :
    (account : BrokerAccountSelection cents) × ((snapshot
        BrokerSyncState.synchronized).selected_account
      ≡ some account)
    × (((RuntimeMode.paper ≡ RuntimeMode.paper) × (account.routing ≡ BrokerAccountRouting.paper))
        ⊎ ((RuntimeMode.paper ≡ RuntimeMode.live) × (account.routing ≡ BrokerAccountRouting.live)))
unfolding broker_account_dependency
broker_account_dependency-routing_example =
    broker_account_dependency-routing (snapshot BrokerSyncState.synchronized) RuntimeMode.paper refl
      refl

-- A journal that takes every entry.
abbrev ledger : EventJournal cents ℕ
ledger = record {
  append = λ _ w. (ok tt, suc w);
  utc_now = λ w. pos w;
  mode_json = λ _. "mode";
  status_json = λ _. "status";
  operator_json = λ _. "operator";
}

abbrev pause_request : RuntimeExecutionRequest cents
pause_request = record {
  mode = RuntimeMode.paper;
  action_source = ActionSource.system;
  authenticated_operator = none;
  execution = record {
    strategy = gold;
    instrument = record {
      tradovate_symbol = "GCZ6";
      tick_size = pos 10;
      entry_reference_price = none;
      active_contract_id = none;
    };
    state = record {
      runtime_can_submit_orders = false;
      new_entries_allowed = false;
      current_position = none;
      working_orders = [];
    };
    intent = ExecutionIntent.pause_strategy "review";
  };
  risk_instrument = record { tick_value_usd = none };
  risk_state = record {
    trades_today = 1;
    consecutive_losses = 0;
    current_position = none;
    unrealized_pnl = none;
    broker_support = record {
      stop_loss = false;
      take_profit = false;
      trailing_stop = false;
      daily_loss_limit = false;
    };
    hard_override_active = false;
  };
}

abbrev paused_outcome : RuntimeExecutionOutcome
paused_outcome = record {
  risk = risk_of broker manager ledger pause_request;
  dispatch =
      some
        (record { results = ExecutionDispatchResult.strategy_paused "review" ∷ []; warnings = [] });
}

pause_dispatches :
    (evaluate_risk_and_execute_tradovate broker manager ledger pause_request selected 90).0
    ≡ ok paused_outcome
unfolding evaluate_risk_and_execute_tradovate evaluate plan_and_execute_tradovate
    validate_instrument
pause_dispatches = refl

evaluate_risk_and_execute-EndsGated_example :
    EndsGated broker manager ledger pause_request selected 90
      (evaluate_risk_and_execute_tradovate broker manager ledger pause_request selected 90)
evaluate_risk_and_execute-EndsGated_example =
    evaluate_risk_and_execute-EndsGated broker manager ledger pause_request selected 90
