-- ===== src/RiskEngine/Gate.antt =====
-- What the risk gate lets through, and what it leaves alone.
use tv_bot_core.Base.{
  ℕ, ◌<◌, ◌≡◌, ◌≢◌, ◌⊎◌, Bool, true, false, none, some, List, [], ◌++◌, String, ok, err,
  Result-cases, arith, inl, inr,
}
use tv_bot_core.External.{Externals}
use tv_bot_core.CoreTypes.{
  ExecutionIntent, TradeSide, EntryOrderType, RiskDecisionStatus, BrokerPreference,
  trailing_enabled,
}
use tv_bot_core.RiskEngine.Sizing.{RiskEvaluationRequest, resolve_entry_quantity}
use tv_bot_core.RiskEngine.Protection.{
  evaluate_broker_protection_support, unsupported_broker_required_trailing_stop_reason,
}
use tv_bot_core.RiskEngine.Evaluate.{drawdown_reached, evaluate}

module _ {X : Externals} (request : RiskEvaluationRequest X) where
  abbrev pub override_reasons : List String
  override_reasons = (evaluate_broker_protection_support request.strategy request.state []).reasons

  -- An entry of `q` contracts passes every check of the gate but the one for protections.
  pub record Passes (q : ℕ) : Type 0 where
    pub trailing :
        trailing_enabled request.strategy.trade_management.trailing ≡ true
        → request.strategy.execution.broker_preferences.trailing_stop
          ≡ BrokerPreference.broker_required
        → request.state.broker_support.trailing_stop ≡ true
    pub trades : request.state.trades_today < request.strategy.risk.max_trades_per_day
    pub losses : request.state.consecutive_losses < request.strategy.risk.max_consecutive_losses
    pub drawdown :
        drawdown_reached X request.strategy.risk.max_unrealized_drawdown_usd
          request.state.unrealized_pnl
        ≡ none
    pub quantity : resolve_entry_quantity request ≡ ok q

  abbrev pub IsCovered : Type 0
  IsCovered = (override_reasons ≡ []) ⊎ (request.state.hard_override_active ≡ true)

module _ {X : Externals} (request : RiskEvaluationRequest X) (side : TradeSide)
    (order_type : EntryOrderType) (n : ℕ) (brackets : Bool) (reason : String)
    (entry : request.intent ≡ ExecutionIntent.enter side order_type n brackets reason) where
  accepted-Passes :
      (q : ℕ)
      → resolve_entry_quantity request ≡ ok q
      → (evaluate request).decision.status ≢ RiskDecisionStatus.rejected
      → Passes request q
  unfolding evaluate unsupported_broker_required_trailing_stop_reason
  accepted-Passes q r h = ground arith

  not_rejected :
      (e : String)
      → resolve_entry_quantity request ≡ err e
      → (evaluate request).decision.status ≡ RiskDecisionStatus.rejected
  unfolding evaluate
  not_rejected e r = ground arith

  accepted-IsCovered :
      (evaluate request).decision.status ≡ RiskDecisionStatus.accepted → IsCovered request
  unfolding evaluate
  accepted-IsCovered h = ground arith

  Passes-accepted :
      (q : ℕ)
      → Passes request q
      → IsCovered request
      → (evaluate request).decision.status ≡ RiskDecisionStatus.accepted
  unfolding evaluate unsupported_broker_required_trailing_stop_reason
  Passes-accepted q a c = ground arith

  abbrev pub Forwards : ℕ → Type 0
  Forwards q =
      ((evaluate request).adjusted_intent ≡ ExecutionIntent.enter side order_type q brackets reason)
      × ((evaluate request).approved_quantity ≡ some q)

  accepted-Forwards :
      (q : ℕ)
      → resolve_entry_quantity request ≡ ok q
      → (evaluate request).decision.status ≢ RiskDecisionStatus.rejected
      → Forwards q
  unfolding evaluate
  accepted-Forwards q r h = ground arith

  not_rejected-Passes :
      (evaluate request).decision.status ≢ RiskDecisionStatus.rejected
      → (q : ℕ) × Passes request q × Forwards q
  not_rejected-Passes h = elim (Result-cases (resolve_entry_quantity request)) [
    | inl (q, r) ↦ (q, accepted-Passes q r h, accepted-Forwards q r h)
    | inr (e, r) ↦ absurd (h (not_rejected e r))
  ]

  -- The gate accepts an entry exactly when the trailing stop, trade count, loss streak, drawdown
  -- and sizing checks pass and either no required protection is missing or an override is active;
  -- what goes on is then the same entry with the resolved quantity.
  pub evaluate-accepted_iff :
      ((evaluate request).decision.status ≡ RiskDecisionStatus.accepted
        → ((q : ℕ) × Passes request q × Forwards q) × IsCovered request)
      × ((q : ℕ)
          → Passes request q
          → IsCovered request
          → (evaluate request).decision.status ≡ RiskDecisionStatus.accepted)
  evaluate-accepted_iff =
      (λ h. (not_rejected-Passes (λ e. cc), accepted-IsCovered h), Passes-accepted)

  uncovered :
      (evaluate request).decision.status ≡ RiskDecisionStatus.requires_override
      → (override_reasons request ≢ []) × (request.state.hard_override_active ≡ false)
  unfolding evaluate
  uncovered h = ground arith

  Passes-requires_override :
      (q : ℕ)
      → Passes request q
      → override_reasons request ≢ []
      → request.state.hard_override_active ≡ false
      → (evaluate request).decision.status ≡ RiskDecisionStatus.requires_override
  unfolding evaluate unsupported_broker_required_trailing_stop_reason
  Passes-requires_override q a n o = ground arith

  -- The gate asks for an override exactly when every other check passes, some required protection
  -- is missing and no override is active.
  pub evaluate-requires_override_iff :
      ((evaluate request).decision.status ≡ RiskDecisionStatus.requires_override
        → ((q : ℕ) × Passes request q × Forwards q)
          × ((override_reasons request ≢ []) × (request.state.hard_override_active ≡ false)))
      × ((q : ℕ)
          → Passes request q
          → override_reasons request ≢ []
          → request.state.hard_override_active ≡ false
          → (evaluate request).decision.status ≡ RiskDecisionStatus.requires_override)
  evaluate-requires_override_iff =
      (λ h. (not_rejected-Passes (λ e. cc), uncovered h), Passes-requires_override)

  -- Whatever the gate decides about an entry, the decision carries every warning of the protection
  -- checks and behind them every reason for an override.
  pub evaluate-warnings :
      let notes = evaluate_broker_protection_support request.strategy request.state [] in
      (evaluate request).decision.warnings ≡ notes.warnings ++ notes.reasons
  unfolding evaluate
  evaluate-warnings = ground arith

abbrev pub is_enter : ExecutionIntent → Bool
is_enter (ExecutionIntent.enter _ _ _ _ _) = true
is_enter _ = false

-- The gate never holds back an intent that is no entry: it is accepted as it is, with no warning
-- and no override, whatever the limits and the broker's support.
pub evaluate-not_enter :
    {X : Externals} (request : RiskEvaluationRequest X)
    → is_enter request.intent ≡ false
    → ((evaluate request).decision.status ≡ RiskDecisionStatus.accepted)
      × ((evaluate request).adjusted_intent ≡ request.intent)
      × ((evaluate request).decision.warnings ≡ [])
      × ((evaluate request).hard_override_reasons ≡ [])
unfolding evaluate
evaluate-not_enter request h = ground arith
