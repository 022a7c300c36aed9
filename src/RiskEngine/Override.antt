-- ===== src/RiskEngine/Override.antt =====
-- When the broker's support calls for a hard override.
use tv_bot_core.Base.{
  ℕ, ◌+◌, ◌<◌, ◌≡◌, ◌↔◌, Bool, true, false, List, [], String, ltb, ap, length, length-append,
  nil_of_length, arith,
}
use tv_bot_core.External.{Externals}
use tv_bot_core.CoreTypes.{CompiledStrategy, BrokerPreference, trailing_enabled}
use tv_bot_core.RiskEngine.Sizing.{RiskStateContext}
use tv_bot_core.RiskEngine.Protection.{Notes, check_when, evaluate_broker_protection_support}

-- How many reasons one check adds.
abbrev gap : Bool → BrokerPreference → Bool → ℕ
gap true BrokerPreference.broker_required false = 1
gap _ _ _ = 0

length-check_when :
    (used : Bool) (p : BrokerPreference) (b : Bool) (label : String) (n : Notes)
    → length (check_when used p b label n).reasons ≡ length n.reasons + gap used p b
unfolding check_when
length-check_when true BrokerPreference.broker_required false label n =
    omega (arith, length-append {0} n.reasons _)
length-check_when true BrokerPreference.broker_preferred false label n = omega arith
length-check_when true BrokerPreference.bot_allowed false label n = omega arith
length-check_when true BrokerPreference.broker_required true label n = omega arith
length-check_when true BrokerPreference.broker_preferred true label n = omega arith
length-check_when true BrokerPreference.bot_allowed true label n = omega arith
length-check_when false p b label n = ground arith

-- What the strategy wants of the broker is there: each protection that is used and required is
-- supported, and so is the daily loss limit where it is required.
pub record IsProtected {X : Externals} (strategy : CompiledStrategy X) (state : RiskStateContext X)
    : Type 0 where
  pub stop_loss :
      0 < strategy.trade_management.initial_stop_ticks
      → strategy.execution.broker_preferences.stop_loss ≡ BrokerPreference.broker_required
      → state.broker_support.stop_loss ≡ true
  pub take_profit :
      0 < strategy.trade_management.take_profit_ticks
      → strategy.execution.broker_preferences.take_profit ≡ BrokerPreference.broker_required
      → state.broker_support.take_profit ≡ true
  pub trailing_stop :
      trailing_enabled strategy.trade_management.trailing ≡ true
      → strategy.execution.broker_preferences.trailing_stop ≡ BrokerPreference.broker_required
      → state.broker_support.trailing_stop ≡ true
  pub daily_loss :
      strategy.risk.daily_loss.broker_side_required ≡ true
      → state.broker_support.daily_loss_limit ≡ true

module _ {X : Externals} (strategy : CompiledStrategy X) (state : RiskStateContext X) where
  abbrev missing : ℕ
  missing =
      let preferences = strategy.execution.broker_preferences in
      let support = state.broker_support in
      let management = strategy.trade_management in
      gap (ltb 0 management.initial_stop_ticks) preferences.stop_loss support.stop_loss
      + gap (ltb 0 management.take_profit_ticks) preferences.take_profit support.take_profit
      + gap (trailing_enabled management.trailing) preferences.trailing_stop support.trailing_stop
      + gap strategy.risk.daily_loss.broker_side_required BrokerPreference.broker_required
          support.daily_loss_limit

  length-reasons :
      (warnings : List String)
      → length (evaluate_broker_protection_support strategy state warnings).reasons ≡ missing
  unfolding evaluate_broker_protection_support
  length-reasons warnings = grind (arith, length-check_when, length-append)

  IsProtected-missing : IsProtected strategy state → missing ≡ 0
  IsProtected-missing h = ground arith

  missing-IsProtected : missing ≡ 0 → IsProtected strategy state
  missing-IsProtected h = ground arith

  -- The protection checks ask for no hard override exactly when every protection that the strategy
  -- uses and requires of the broker, the daily loss limit included, is supported.
  pub reasons-nil_iff :
      (warnings : List String)
      → ((evaluate_broker_protection_support strategy state warnings).reasons ≡ [])
        ↔ IsProtected strategy state
  reasons-nil_iff warnings = (
    λ e. missing-IsProtected (omega (arith, length-reasons warnings, ap length e)),
    λ h. nil_of_length _ (omega (arith, length-reasons warnings, IsProtected-missing h)),
  )
