-- ===== src/RiskEngine/Protection.antt =====
-- What the broker cannot protect, in crates/risk_engine/src/lib.rs: the reasons that call for a
-- hard override and the warnings.
use tv_bot_core.Base.{
  Bool, true, false, Option, none, some, List, [], ◌∷◌, ◌++◌, String, ltb, not, ◌&&◌, if◌then◌else◌,
  format,
}
use tv_bot_core.External.{Externals}
use tv_bot_core.CoreTypes.{CompiledStrategy, BrokerPreference, is_broker_required, trailing_enabled}
use tv_bot_core.RiskEngine.Sizing.{RiskStateContext}

-- The two vectors that the checks push to.
pub record Notes : Type 0 where
  pub warnings : List String
  pub reasons : List String

unfoldable pub evaluate_feature_support : BrokerPreference → Bool → String → Notes → Notes
evaluate_feature_support preference true label notes = notes
evaluate_feature_support BrokerPreference.broker_required false label notes = record notes {
  reasons = notes.reasons ++ format (label ∷ " is unavailable" ∷ []) ∷ [];
}
evaluate_feature_support BrokerPreference.broker_preferred false label notes = record notes {
  warnings =
      notes.warnings
      ++ format (label ∷ " is unavailable; local runtime handling will be required" ∷ []) ∷ [];
}
evaluate_feature_support BrokerPreference.bot_allowed false label notes = notes

-- A feature is checked only where the strategy uses it.
unfoldable pub check_when : Bool → BrokerPreference → Bool → String → Notes → Notes
unfolding evaluate_feature_support
check_when used preference supported label notes =
    if used then evaluate_feature_support preference supported label notes else notes

module _ {X : Externals} where
  unfoldable pub evaluate_broker_protection_support :
      CompiledStrategy X → RiskStateContext X → List String → Notes
  unfolding check_when
  evaluate_broker_protection_support strategy state warnings =
      let preferences = strategy.execution.broker_preferences in
      let support = state.broker_support in
      let management = strategy.trade_management in
      let start : Notes = record { warnings = warnings; reasons = [] } in
      let stops =
        check_when (ltb 0 management.initial_stop_ticks) preferences.stop_loss support.stop_loss
          "broker-side stop-loss protection" start in
      let profits =
        check_when (ltb 0 management.take_profit_ticks) preferences.take_profit support.take_profit
          "broker-side take-profit protection" stops in
      let trails =
        check_when (trailing_enabled management.trailing) preferences.trailing_stop
          support.trailing_stop "broker-side trailing-stop protection" profits in
      if strategy.risk.daily_loss.broker_side_required && not support.daily_loss_limit
      then record trails {
        reasons =
            trails.reasons
            ++ "broker-side daily loss protection is unavailable for the loaded strategy" ∷ [];
      }
      else trails

  unfoldable pub unsupported_broker_required_trailing_stop_reason :
      CompiledStrategy X → RiskStateContext X → Option String
  unsupported_broker_required_trailing_stop_reason strategy state =
      if trailing_enabled strategy.trade_management.trailing
        && is_broker_required strategy.execution.broker_preferences.trailing_stop
        && not state.broker_support.trailing_stop
      then some
          "broker-required trailing-stop protection is unavailable and cannot be satisfied by the current execution path"
      else none
