-- ===== src/RiskEngine/Evaluate.antt =====
-- `RiskEvaluator::evaluate` of crates/risk_engine/src/lib.rs.
use tv_bot_core.Base.{
  ℕ, Bool, Option, none, some, List, [], ◌∷◌, ◌++◌, String, Result, ok, err, ◌&&◌, leb, is_empty,
  if◌then◌else◌, format, show_unsigned,
}
use tv_bot_core.External.{Externals}
use tv_bot_core.CoreTypes.{ExecutionIntent, RiskDecision, RiskDecisionStatus, is_accepted}
use tv_bot_core.RiskEngine.Sizing.{RiskEvaluationRequest, resolve_entry_quantity}
use tv_bot_core.RiskEngine.Protection.{
  evaluate_broker_protection_support, unsupported_broker_required_trailing_stop_reason,
}

pub record RiskEvaluationOutcome : Type 0 where
  pub decision : RiskDecision
  pub adjusted_intent : ExecutionIntent
  pub approved_quantity : Option ℕ
  pub hard_override_reasons : List String

abbrev pub allows_execution : RiskEvaluationOutcome → Bool
allows_execution outcome = is_accepted outcome.decision.status

unfoldable pub build_override_outcome :
    ExecutionIntent → Option ℕ → String → List String → List String → Bool → RiskEvaluationOutcome
build_override_outcome adjusted approved reason warnings reasons override_active = record {
  decision =
      if is_empty reasons
      then record {
        status = RiskDecisionStatus.accepted;
        reason = reason;
        warnings = warnings ++ reasons;
      }
      else if override_active
      then record {
        status = RiskDecisionStatus.accepted;
        reason = "risk checks passed under active hard override";
        warnings = warnings ++ reasons;
      }
      else record {
        status = RiskDecisionStatus.requires_override;
        reason = "broker-required protections are unavailable";
        warnings = warnings ++ reasons;
      };
  adjusted_intent = adjusted;
  approved_quantity = approved;
  hard_override_reasons = reasons;
}

unfoldable pub rejected_outcome :
    ExecutionIntent → String → List String → List String → RiskEvaluationOutcome
rejected_outcome intent reason warnings reasons = record {
  decision = record {
    status = RiskDecisionStatus.rejected;
    reason = reason;
    warnings = warnings ++ reasons;
  };
  adjusted_intent = intent;
  approved_quantity = none;
  hard_override_reasons = reasons;
}

-- The intent with the approved quantity in place of the requested one.
abbrev pub with_quantity : ExecutionIntent → ℕ → ExecutionIntent
with_quantity (ExecutionIntent.enter side order_type _ brackets reason) quantity =
    ExecutionIntent.enter side order_type quantity brackets reason
with_quantity intent _ = intent

module _ (X : Externals) where
  open X use {Decimal, decimal_le, decimal_abs, decimal_is_sign_negative}

  -- The limit that an open loss has reached, if it has.
  abbrev pub drawdown_reached : Option Decimal → Option Decimal → Option Decimal
  drawdown_reached none pnl = none
  drawdown_reached (some limit) none = none
  drawdown_reached (some limit) (some pnl) =
      if decimal_is_sign_negative pnl && decimal_le limit (decimal_abs pnl)
      then some limit
      else none

module _ {X : Externals} where
  open X use {Decimal, decimal_display}

  abbrev settle_quantity :
      RiskEvaluationRequest X → List String → List String → Result String ℕ → RiskEvaluationOutcome
  settle_quantity request warnings reasons (ok quantity) =
      build_override_outcome (with_quantity request.intent quantity) (some quantity)
        "risk checks passed" warnings reasons request.state.hard_override_active
  settle_quantity request warnings reasons (err reason) =
      rejected_outcome request.intent reason warnings reasons

  abbrev settle_drawdown :
      RiskEvaluationRequest X → List String → List String → Option Decimal → RiskEvaluationOutcome
  settle_drawdown request warnings reasons (some limit) =
      rejected_outcome request.intent
        (format ("max unrealized drawdown reached (" ∷ decimal_display limit ∷ " USD)" ∷ []))
        warnings reasons
  settle_drawdown request warnings reasons none =
      settle_quantity request warnings reasons (resolve_entry_quantity request)

  abbrev settle_limits : RiskEvaluationRequest X → List String → List String → RiskEvaluationOutcome
  settle_limits request warnings reasons =
      let risk = request.strategy.risk in
      let state = request.state in
      if leb risk.max_trades_per_day state.trades_today
      then rejected_outcome request.intent
          (format
            ("max trades per day reached (" ∷ show_unsigned risk.max_trades_per_day ∷ ")" ∷ []))
          warnings reasons
      else if leb risk.max_consecutive_losses state.consecutive_losses
      then rejected_outcome request.intent
          (format (
            "max consecutive losses reached ("
            ∷ show_unsigned risk.max_consecutive_losses
            ∷ ")"
            ∷ []))
          warnings reasons
      else settle_drawdown request warnings reasons
          (drawdown_reached X risk.max_unrealized_drawdown_usd state.unrealized_pnl)

  abbrev settle_trailing :
      RiskEvaluationRequest X → List String → List String → Option String → RiskEvaluationOutcome
  settle_trailing request warnings reasons (some reason) = record {
    decision = record {
      status = RiskDecisionStatus.rejected;
      reason = reason;
      warnings = warnings ++ reasons;
    };
    adjusted_intent = request.intent;
    approved_quantity = none;
    hard_override_reasons = [];
  }
  settle_trailing request warnings reasons none = settle_limits request warnings reasons

  -- The early returns of `evaluate_enter`, one helper for each.
  unfoldable pub evaluate_enter :
      RiskEvaluationRequest X → List String → List String → RiskEvaluationOutcome
  unfolding build_override_outcome rejected_outcome
  evaluate_enter request warnings reasons =
      settle_trailing request warnings reasons
        (unsupported_broker_required_trailing_stop_reason request.strategy request.state)

  abbrev evaluate_intent : ExecutionIntent → RiskEvaluationRequest X → RiskEvaluationOutcome
  evaluate_intent (ExecutionIntent.enter _ _ _ _ _) request =
      let notes = evaluate_broker_protection_support request.strategy request.state [] in
      evaluate_enter request notes.warnings notes.reasons
  evaluate_intent _ request =
      build_override_outcome request.intent none "risk checks passed" [] []
        request.state.hard_override_active

  unfoldable pub evaluate : RiskEvaluationRequest X → RiskEvaluationOutcome
  unfolding evaluate_enter
  evaluate request = evaluate_intent request.intent request
