-- ===== src/ExecutionEngine/Tests.antt =====
-- Runs of the execution planner, and its theorems at concrete requests.
use tv_bot_core.Base.{
  ◌⊎◌, ◌-ℤ◌, ◌≤◌, ◌<◌, ◌≡◌, refl, inl, ℤ, pos, negsuc, Bool, true, false, Option, none, some, [],
  ◌∷◌, String, Result, ok, any, All, format, trim, take_chars, parse_i64, strip_prefix,
  eq_ignore_ascii_case,
}
use tv_bot_core.CoreTypes.{
  ExecutionIntent, TradeSide, EntryOrderType, BrokerOrderStatus, BrokerOrderUpdate,
  BrokerPositionSnapshot,
}
use tv_bot_core.Sample.{cents, gold, holding}
use tv_bot_core.ExecutionEngine.Request.{
  ExecutionRequest, ExecutionAction, ExecutionPlan, ExecutionEngineError, order_text, strategy_tag,
  resolve_contract_id, active_position, validate_instrument,
}
use tv_bot_core.ExecutionEngine.Planner.{plan_tradovate, plan_opening, entry_action, cancellations}
use tv_bot_core.ExecutionEngine.Entry.{
  assess_trade_management_support, ensure_required_protection_configuration,
}
use tv_bot_core.ExecutionEngine.Guards.{
  submits, Withholds, blocked-submits, with_permissions, plan_tradovate-with_permissions,
}
use tv_bot_core.ExecutionEngine.Brackets.{
  HasProtectiveEntry, HasRequired, plan_tradovate-HasProtectiveEntry, plan_tradovate-required,
}
use tv_bot_core.ExecutionEngine.Accepted.{IsAccepted, plan_tradovate-IsAccepted}
use tv_bot_core.ExecutionEngine.Positions.{
  plan_tradovate-scale_in, plan_tradovate-flatten_first, order_text_bounds,
}
use tv_bot_core.ExecutionEngine.Dispatch.{
  ExecutionDispatchReport, ExecutionDispatchResult, plan_and_execute_tradovate,
}
use tv_bot_core.ExecutionEngine.Reports.{AnswersAll, is_submission, plan_and_execute-reports}
use tv_bot_core.BrokerTradovate.Manager.{renew_access_token_if_needed}
use tv_bot_core.BrokerTradovate.Status.{execution_context}
use tv_bot_core.BrokerTradovate.Scripted.{broker, manager, selected}
use tv_bot_core.ExecutionEngine.Exposure.{Reaches, plan_tradovate-target}

abbrev order : String → BrokerOrderUpdate cents
order id = record {
  broker_order_id = id;
  account_id = none;
  symbol = "gcZ6";
  side = some TradeSide.buy;
  quantity = some 1;
  order_type = none;
  status = BrokerOrderStatus.working;
  filled_quantity = 0;
  limit_price = none;
  stop_price = none;
  average_fill_price = none;
  updated_at = pos 0;
}

abbrev request :
    Bool → Option (BrokerPositionSnapshot cents) → ExecutionIntent → ExecutionRequest cents
request permitted position intent = record {
  strategy = gold;
  instrument = record {
    tradovate_symbol = "GCZ6";
    tick_size = pos 10;
    entry_reference_price = some (pos 235000);
    active_contract_id = none;
  };
  state = record {
    runtime_can_submit_orders = permitted;
    new_entries_allowed = permitted;
    current_position = position;
    working_orders = order "41" ∷ order "42" ∷ [];
  };
  intent = intent;
}

abbrev buy : ExecutionIntent
buy = ExecutionIntent.enter TradeSide.buy EntryOrderType.market 2 true "breakout"

abbrev from_short : ExecutionRequest cents
from_short = request true (some (holding (negsuc 0))) buy

abbrev from_long : ExecutionRequest cents
from_long = request true (some (holding (pos 1))) buy

abbrev cancel : ExecutionRequest cents
cancel = request false none (ExecutionIntent.cancel_working_orders "session over")

-- The result of a computation that does not fail.
abbrev result : Result ExecutionEngineError (ExecutionPlan cents) → ExecutionPlan cents
result (Result.ok plan) = plan
result (Result.err e) = record { actions = []; warnings = [] }

-- The planner with all that it calls, for the runs below.
run : ExecutionRequest cents → Result ExecutionEngineError (ExecutionPlan cents)
unfolding plan_tradovate validate_instrument assess_trade_management_support
    ensure_required_protection_configuration plan_opening active_position resolve_contract_id
    strip_prefix parse_i64 entry_action cancellations eq_ignore_ascii_case
run request = plan_tradovate request

abbrev plan : ExecutionRequest cents → ExecutionPlan cents
plan request = result (plan_tradovate request)

from_short_plans : plan_tradovate from_short ≡ ok (plan from_short)
unfolding run
from_short_plans = refl

from_long_plans : plan_tradovate from_long ≡ ok (plan from_long)
unfolding run
from_long_plans = refl

cancel_plans :
    plan_tradovate cancel
    ≡ ok (record {
      actions =
          ExecutionAction.cancel_order (pos 41) "gcZ6" "session over"
          ∷ ExecutionAction.cancel_order (pos 42) "gcZ6" "session over"
          ∷ [];
      warnings = [];
    })
unfolding run
cancel_plans = refl

plan_tradovate-target_example : Reaches from_short buy (plan from_short)
plan_tradovate-target_example = plan_tradovate-target from_short (plan from_short) from_short_plans

abbrev blocked_reduction : ExecutionRequest cents
blocked_reduction =
    request false (some (holding (pos 2))) (ExecutionIntent.reduce_position 2 "trim")

blocked-submits_example : Withholds blocked_reduction (plan_tradovate blocked_reduction)
blocked-submits_example = blocked-submits blocked_reduction refl

plan_tradovate-with_permissions_example :
    plan_tradovate (with_permissions cancel true true) ≡ plan_tradovate cancel
plan_tradovate-with_permissions_example = plan_tradovate-with_permissions cancel true true refl

plan_tradovate-HasProtectiveEntry_example :
    HasProtectiveEntry from_short TradeSide.buy (plan from_short)
plan_tradovate-HasProtectiveEntry_example =
    plan_tradovate-HasProtectiveEntry from_short TradeSide.buy EntryOrderType.market 2 true
      "breakout" (plan from_short) refl from_short_plans refl

plan_tradovate-required_example : HasRequired from_short TradeSide.buy (plan from_short)
plan_tradovate-required_example =
    plan_tradovate-required from_short TradeSide.buy EntryOrderType.market 2 true "breakout"
      (plan from_short) refl from_short_plans (inl refl)

plan_tradovate-IsAccepted_example : All IsAccepted (plan from_short).actions
unfolding trim
plan_tradovate-IsAccepted_example =
    plan_tradovate-IsAccepted from_short refl (plan from_short) from_short_plans

plan_tradovate-scale_in_example :
    ◌≡◌ {A = Bool} true true
    × (1 < 4)
    × ((action : ExecutionAction cents) × ((plan from_long).actions ≡ action ∷ [])
        × (submits action ≡ true))
unfolding active_position
plan_tradovate-scale_in_example =
    plan_tradovate-scale_in from_long TradeSide.buy EntryOrderType.market 2 true "breakout"
      (plan from_long) refl from_long_plans (holding (pos 1)) refl refl

plan_tradovate-flatten_first_example :
    (contract_id : ℤ) × (action : ExecutionAction cents) × ((plan from_short).actions
      ≡ ExecutionAction.liquidate_position contract_id
          (format ("flatten-first reversal: " ∷ "breakout" ∷ []))
          (strategy_tag "gc_momentum_v1")
        ∷ action
        ∷ [])
    × (resolve_contract_id (from_short.instrument) (some (holding (negsuc 0))) ≡ some contract_id)
    × (submits action ≡ true)
unfolding active_position
plan_tradovate-flatten_first_example =
    plan_tradovate-flatten_first from_short TradeSide.buy EntryOrderType.market 2 true "breakout"
      (plan from_short) refl from_short_plans (holding (negsuc 0)) refl refl refl

order_text_bounds_example : (0 < 8) × (8 ≤ 64)
unfolding order_text trim take_chars
order_text_bounds_example = order_text_bounds " breakout " "breakout" (inl refl)

abbrev cancelled : ExecutionDispatchReport
cancelled = record {
  results =
      ExecutionDispatchResult.order_cancelled (pos 9003) "gcZ6" "session over"
      ∷ ExecutionDispatchResult.order_cancelled (pos 9003) "gcZ6" "session over"
      ∷ [];
  warnings = [];
}

cancel_dispatches : (plan_and_execute_tradovate broker manager cancel selected 90).0 ≡ ok cancelled
unfolding run plan_and_execute_tradovate ◌-ℤ◌ renew_access_token_if_needed execution_context
cancel_dispatches = refl

plan_and_execute-reports_example :
    ((planned : ExecutionPlan cents) × (plan_tradovate cancel ≡ ok planned)
      × AnswersAll planned.actions cancelled.results
      × (cancelled.warnings ≡ planned.warnings))
    × ((cancel.state.runtime_can_submit_orders ≡ true)
        ⊎ (any is_submission cancelled.results ≡ false))
plan_and_execute-reports_example =
    plan_and_execute-reports broker manager cancel selected 90 cancelled cancel_dispatches
