-- ===== src/RuntimeKernel/Pipeline.antt =====
-- `evaluate_risk_and_execute_tradovate` of crates/runtime_kernel/src/lib.rs: the risk decision is
-- journaled before anything is dispatched.
use tv_bot_core.Base.{
  ℕ, ℤ, pos, ◌&&◌, Option, none, some, List, [], ◌∷◌, ◌++◌, map, String, Result, ok, err, is_empty,
  if◌then◌else◌, format, show_i64,
}
use tv_bot_core.External.{Externals}
use tv_bot_core.CoreTypes.{
  RuntimeMode, ActionSource, EventSeverity, AuthenticatedOperator, EventJournalRecord,
  ExecutionIntent, RiskDecisionStatus, is_accepted,
}
use tv_bot_core.RiskEngine.Sizing.{RiskInstrumentContext, RiskStateContext}
use tv_bot_core.RiskEngine.Evaluate.{RiskEvaluationOutcome, evaluate}
use tv_bot_core.BrokerTradovate.Session.{SessionState}
use tv_bot_core.BrokerTradovate.Apis.{SessionApis}
use tv_bot_core.BrokerTradovate.Config.{TradovateSessionManager}
use tv_bot_core.ExecutionEngine.Request.{ExecutionRequest}
use tv_bot_core.ExecutionEngine.Dispatch.{
  ExecutionDispatchReport, ExecutionDispatchError, plan_and_execute_tradovate,
}

-- A source is kept as its message, by which it is compared.
pub data JournalError : Type 0 where
  poisoned : JournalError
  persistence state_store : (source : String) → JournalError

-- `EventJournal::append` and `Utc::now` on the world that the broker is part of, and the derived
-- `Serialize` of what is journaled.
pub record EventJournal (X : Externals) (World : Type 0) : Type 0 where
  pub append : EventJournalRecord X → World → Result JournalError (Unit {0}) × World
  pub utc_now : World → X.DateTime
  pub mode_json : RuntimeMode → X.Json
  pub status_json : RiskDecisionStatus → X.Json
  pub operator_json : AuthenticatedOperator → X.Json

pub record RuntimeExecutionRequest (X : Externals) : Type 0 where
  pub mode : RuntimeMode
  pub action_source : ActionSource
  pub authenticated_operator : Option AuthenticatedOperator
  pub execution : ExecutionRequest X
  pub risk_instrument : RiskInstrumentContext X
  pub risk_state : RiskStateContext X

pub record RuntimeExecutionOutcome : Type 0 where
  pub risk : RiskEvaluationOutcome
  pub dispatch : Option ExecutionDispatchReport

pub data RuntimeExecutionError : Type 0 where
  journal : (source : JournalError) → RuntimeExecutionError
  dispatch : (source : ExecutionDispatchError) → RuntimeExecutionError

abbrev pub intent_name : ExecutionIntent → String
intent_name (ExecutionIntent.enter _ _ _ _ _) = "enter"
intent_name (ExecutionIntent.exit _) = "exit"
intent_name (ExecutionIntent.flatten _) = "flatten"
intent_name (ExecutionIntent.cancel_working_orders _) = "cancel_working_orders"
intent_name (ExecutionIntent.reduce_position _ _) = "reduce_position"
intent_name (ExecutionIntent.pause_strategy _) = "pause_strategy"

abbrev or_zero : Option ℤ → ℤ
or_zero none = pos 0
or_zero (some timestamp) = timestamp

abbrev pub event_id : (X : Externals) → String → String → X.DateTime → String
event_id X category action occurred_at =
    format (category ∷ "-" ∷ action ∷ "-" ∷ show_i64 (or_zero (X.timestamp_nanos occurred_at)) ∷ [])

abbrev decision_severity : RiskDecisionStatus → EventSeverity
decision_severity RiskDecisionStatus.accepted = EventSeverity.info
decision_severity _ = EventSeverity.warning

abbrev unsigned_json : (X : Externals) → Option ℕ → X.Json
unsigned_json X none = X.json_null
unsigned_json X (some n) = X.json_unsigned n

abbrev strings_json : (X : Externals) → List String → X.Json
strings_json X texts = X.json_array (map X.json_string texts)

module _ {X : Externals} (A : SessionApis X) (m : TradovateSessionManager X)
    (J : EventJournal X A.World) where
  -- The entries of the payload, to which an authenticated operator is added.
  abbrev operator_entry : Option AuthenticatedOperator → List (String × X.Json)
  operator_entry none = []
  operator_entry (some operator) = ("authenticated_operator", J.operator_json operator) ∷ []

  abbrev pub journal_payload : Option AuthenticatedOperator → List (String × X.Json) → X.Json
  journal_payload operator entries = X.json_object (entries ++ operator_entry operator)

  abbrev pub decision_entries :
      RuntimeExecutionRequest X → RiskEvaluationOutcome → List (String × X.Json)
  decision_entries request outcome =
      ("mode", J.mode_json request.mode)
      ∷ ("strategy_id", X.json_string request.execution.strategy.metadata.strategy_id)
      ∷ ("intent", X.json_string (intent_name request.execution.intent))
      ∷ ("decision_status", J.status_json outcome.decision.status)
      ∷ ("reason", X.json_string outcome.decision.reason)
      ∷ ("warnings", strings_json X outcome.decision.warnings)
      ∷ ("approved_quantity", unsigned_json X outcome.approved_quantity)
      ∷ ("hard_override_reasons", strings_json X outcome.hard_override_reasons)
      ∷ []

  unfoldable pub journal_risk_decision :
      RuntimeExecutionRequest X
      → RiskEvaluationOutcome
      → A.World
      → Result JournalError (Unit {0}) × A.World
  journal_risk_decision request outcome w =
      let occurred_at = J.utc_now w in
      J.append
        (record {
          event_id = event_id X "risk" "decision" occurred_at;
          category = "risk";
          action = "decision";
          source = request.action_source;
          severity = decision_severity outcome.decision.status;
          occurred_at = occurred_at;
          payload =
              journal_payload request.authenticated_operator (decision_entries request outcome);
        })
        w

  abbrev pub override_action : RuntimeExecutionRequest X → RiskEvaluationOutcome → String
  override_action request outcome =
      if request.risk_state.hard_override_active && is_accepted outcome.decision.status
      then "hard_override_used"
      else "hard_override_required"

  abbrev pub override_entries :
      RuntimeExecutionRequest X → RiskEvaluationOutcome → List (String × X.Json)
  override_entries request outcome =
      ("mode", J.mode_json request.mode)
      ∷ ("strategy_id", X.json_string request.execution.strategy.metadata.strategy_id)
      ∷ ("intent", X.json_string (intent_name request.execution.intent))
      ∷ ("decision_status", J.status_json outcome.decision.status)
      ∷ ("reasons", strings_json X outcome.hard_override_reasons)
      ∷ []

  unfoldable pub journal_hard_override :
      RuntimeExecutionRequest X
      → RiskEvaluationOutcome
      → A.World
      → Result JournalError (Unit {0}) × A.World
  journal_hard_override request outcome w =
      let occurred_at = J.utc_now w in
      let action = override_action request outcome in
      J.append
        (record {
          event_id = event_id X "risk" action occurred_at;
          category = "risk";
          action = action;
          source = request.action_source;
          severity = EventSeverity.warning;
          occurred_at = occurred_at;
          payload =
              journal_payload request.authenticated_operator (override_entries request outcome);
        })
        w

  abbrev pub risk_of : RuntimeExecutionRequest X → RiskEvaluationOutcome
  risk_of request = evaluate (record {
    strategy = request.execution.strategy;
    instrument = request.risk_instrument;
    state = request.risk_state;
    intent = request.execution.intent;
  })

  -- The execution of the intent that the risk engine passes on.
  abbrev pub adjusted : RuntimeExecutionRequest X → ExecutionRequest X
  adjusted request = record request.execution { intent = (risk_of request).adjusted_intent }

  abbrev pub Executed : Type 0
  Executed = Result RuntimeExecutionError RuntimeExecutionOutcome × SessionState X × A.World

  -- `.map_err(..)?` of a journal entry, followed by the rest.
  abbrev pub journaled :
      Result JournalError (Unit {0}) × A.World → SessionState X → (A.World → Executed) → Executed
  journaled (err source, w) s rest = (err (RuntimeExecutionError.journal source), s, w)
  journaled (ok u, w) s rest = rest w

  abbrev pub dispatched :
      RiskEvaluationOutcome
      → Result ExecutionDispatchError ExecutionDispatchReport × SessionState X × A.World
      → Executed
  dispatched risk (err source, s, w) = (err (RuntimeExecutionError.dispatch source), s, w)
  dispatched risk (ok report, s, w) = (ok (record { risk = risk; dispatch = some report }), s, w)

  abbrev pub act : RuntimeExecutionRequest X → SessionState X → A.World → Executed
  act request s w =
      let sent =
        dispatched (risk_of request) (plan_and_execute_tradovate A m (adjusted request) s w) in
      if is_accepted (risk_of request).decision.status
      then sent
      else (ok (record { risk = risk_of request; dispatch = none }), s, w)

  abbrev pub override_journaled : RuntimeExecutionRequest X → SessionState X → A.World → Executed
  override_journaled request s w =
      let noted = journaled (journal_hard_override request (risk_of request) w) s (act request s) in
      if is_empty (risk_of request).hard_override_reasons then act request s w else noted

  unfoldable pub evaluate_risk_and_execute_tradovate :
      RuntimeExecutionRequest X → SessionState X → A.World → Executed
  unfolding journal_risk_decision journal_hard_override
  evaluate_risk_and_execute_tradovate request s w =
      journaled (journal_risk_decision request (risk_of request) w) s (override_journaled request s)
