-- ===== src/RiskEngine/Tests.antt =====
-- Runs of the risk gate, and its theorems at concrete requests.
use tv_bot_core.Base.{
  ℕ, ◌≤◌, ◌≡◌, ◌≢◌, ◌↔◌, refl, pos, Bool, true, false, none, some, [], ◌∷◌, ok, format,
}
use tv_bot_core.CoreTypes.{ExecutionIntent, TradeSide, EntryOrderType, RiskDecisionStatus}
use tv_bot_core.Sample.{cents, gold}
use tv_bot_core.RiskEngine.Sizing.{
  BrokerProtectionSupport, RiskStateContext, RiskEvaluationRequest, resolve_entry_quantity,
}
use tv_bot_core.RiskEngine.Protection.{
  evaluate_broker_protection_support, unsupported_broker_required_trailing_stop_reason,
}
use tv_bot_core.RiskEngine.Bounds.{PositiveUnless, resolve_entry_quantity_bounds}
use tv_bot_core.RiskEngine.Override.{IsProtected, reasons-nil_iff}
use tv_bot_core.RiskEngine.Evaluate.{evaluate}
use tv_bot_core.RiskEngine.Gate.{
  Passes, IsCovered, Forwards, override_reasons, evaluate-accepted_iff,
  evaluate-requires_override_iff, evaluate-warnings, evaluate-not_enter,
}

abbrev support : Bool → BrokerProtectionSupport
support stops = record {
  stop_loss = stops;
  take_profit = false;
  trailing_stop = false;
  daily_loss_limit = false;
}

abbrev state : Bool → Bool → RiskStateContext cents
state stops override_active = record {
  trades_today = 1;
  consecutive_losses = 0;
  current_position = none;
  unrealized_pnl = none;
  broker_support = support stops;
  hard_override_active = override_active;
}

abbrev buy : ExecutionIntent
buy = ExecutionIntent.enter TradeSide.buy EntryOrderType.market 1 true "breakout"

abbrev request : Bool → Bool → ExecutionIntent → RiskEvaluationRequest cents
request stops override_active intent = record {
  strategy = gold;
  instrument = record { tick_value_usd = some (pos 1000) };
  state = state stops override_active;
  intent = intent;
}

two_contracts : resolve_entry_quantity (request true false buy) ≡ ok 2
unfolding resolve_entry_quantity
two_contracts = refl

covered : (evaluate (request true false buy)).decision.status ≡ RiskDecisionStatus.accepted
unfolding evaluate evaluate_broker_protection_support resolve_entry_quantity
    unsupported_broker_required_trailing_stop_reason
covered = refl

uncovered :
    (evaluate (request false false buy)).decision.status ≡ RiskDecisionStatus.requires_override
unfolding evaluate evaluate_broker_protection_support resolve_entry_quantity
    unsupported_broker_required_trailing_stop_reason
uncovered = refl

resolve_entry_quantity_bounds_example :
    (1 ≤ 2) × (2 ≤ 3) × PositiveUnless (request true false buy) 2
resolve_entry_quantity_bounds_example =
    resolve_entry_quantity_bounds (request true false buy) 2 two_contracts

reasons-nil_iff_example :
    ((evaluate_broker_protection_support gold (state true false) []).reasons ≡ [])
    ↔ IsProtected gold (state true false)
reasons-nil_iff_example = reasons-nil_iff gold (state true false) []

evaluate-accepted_iff_example :
    ((q : ℕ) × Passes (request true false buy) q
      × Forwards
          (request true false buy)
          TradeSide.buy
          EntryOrderType.market
          1
          true
          "breakout"
          refl
          q)
    × IsCovered (request true false buy)
evaluate-accepted_iff_example =
    (evaluate-accepted_iff (request true false buy) TradeSide.buy EntryOrderType.market 1 true
        "breakout" refl).0
      covered

evaluate-requires_override_iff_example :
    ((q : ℕ) × Passes (request false false buy) q
      × Forwards
          (request false false buy)
          TradeSide.buy
          EntryOrderType.market
          1
          true
          "breakout"
          refl
          q)
    × ((override_reasons (request false false buy) ≢ []) × ◌≡◌ {A = Bool} false false)
evaluate-requires_override_iff_example =
    (evaluate-requires_override_iff (request false false buy) TradeSide.buy EntryOrderType.market 1
        true "breakout" refl).0
      uncovered

evaluate-warnings_example :
    (evaluate (request false false buy)).decision.warnings
    ≡ "broker-side take-profit protection is unavailable; local runtime handling will be required"
      ∷ "broker-side stop-loss protection is unavailable" ∷ []
unfolding evaluate_broker_protection_support format
evaluate-warnings_example =
    evaluate-warnings (request false false buy) TradeSide.buy EntryOrderType.market 1 true
      "breakout" refl

flatten_is_accepted :
    let request = request false false (ExecutionIntent.flatten "stop out") in
    ((evaluate request).decision.status ≡ RiskDecisionStatus.accepted)
    × ((evaluate request).adjusted_intent ≡ ExecutionIntent.flatten "stop out")
    × ((evaluate request).decision.warnings ≡ [])
    × ((evaluate request).hard_override_reasons ≡ [])
flatten_is_accepted =
    evaluate-not_enter (request false false (ExecutionIntent.flatten "stop out")) refl
