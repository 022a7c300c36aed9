-- ===== src/BrokerTradovate/Calls.antt =====
-- Sequences of calls of the session manager's methods, crates/broker_tradovate/src/lib.rs.
use tv_bot_core.Base.{ℤ, true, false, Option, List, [], ◌∷◌, String}
use tv_bot_core.External.{Externals}
use tv_bot_core.CoreTypes.{RuntimeMode, BrokerAccountRouting}
use tv_bot_core.BrokerTradovate.Orders.{TradovateOrderPlacement, TradovateOsoOrderPlacement}
use tv_bot_core.BrokerTradovate.Session.{
  TradovateAccountSelector, TradovateReconnectDecision, SessionState, initial_state,
}
use tv_bot_core.BrokerTradovate.Apis.{SessionApis, Outcome}
use tv_bot_core.BrokerTradovate.Config.{TradovateSessionManager}
use tv_bot_core.BrokerTradovate.Sync.{acknowledge_reconnect_review}
use tv_bot_core.BrokerTradovate.Manager.{
  authenticate, renew_access_token_if_needed, refresh_accounts, select_account,
  select_account_for_mode, connect_user_sync, reconnect_user_sync, poll_next_event, disconnect,
}
use tv_bot_core.BrokerTradovate.Execution.{place_order, place_oso, liquidate_position, cancel_order}
use tv_bot_core.BrokerTradovate.Invariant.{
  SessionInv, initial_state-SessionInv, acknowledge-SessionInv, authenticate-Keeps, renew-Keeps,
  refresh-Keeps, select_account-Keeps, select_account_for_mode-Keeps, connect-Keeps,
  reconnect-Keeps, poll-Keeps, disconnect-Keeps, with_context-Keeps,
}

-- A method that takes `&mut self`, with its arguments.
pub data SessionCall (X : Externals) : Type 0 where
  authenticating renewing refreshing connecting reconnecting polling : SessionCall X
  disconnecting : SessionCall X
  selecting : BrokerAccountRouting → TradovateAccountSelector → SessionCall X
  selecting_for : RuntimeMode → SessionCall X
  acknowledging : TradovateReconnectDecision → SessionCall X
  placing : TradovateOrderPlacement X → SessionCall X
  placing_oso : TradovateOsoOrderPlacement X → SessionCall X
  liquidating : ℤ → Option String → SessionCall X
  cancelling : ℤ → SessionCall X

module _ {X : Externals} (A : SessionApis X) (m : TradovateSessionManager X) where
  -- The state and the world that a method leaves.
  abbrev after : {B : Type 0} → Outcome (SessionState X) A.World B → SessionState X × A.World
  after outcome = (outcome.1, outcome.2)

  unfoldable pub session_step : SessionCall X → SessionState X → A.World → SessionState X × A.World
  session_step authenticating s w = after (authenticate A m s w)
  session_step renewing s w = after (renew_access_token_if_needed A m s w)
  session_step refreshing s w = after (refresh_accounts A m s w)
  session_step connecting s w = after (connect_user_sync A m s w)
  session_step reconnecting s w = after (reconnect_user_sync A m s w)
  session_step polling s w = after (poll_next_event A m s w)
  session_step disconnecting s w = after (disconnect A m s w)
  session_step (selecting routing selector) s w = after (select_account A m routing selector s w)
  session_step (selecting_for mode) s w = after (select_account_for_mode A m mode s w)
  session_step (acknowledging decision) s w = (acknowledge_reconnect_review decision s, w)
  session_step (placing order) s w = after (place_order A m order s w)
  session_step (placing_oso order) s w = after (place_oso A m order s w)
  session_step (liquidating id tag) s w = after (liquidate_position A m id tag s w)
  session_step (cancelling id) s w = after (cancel_order A m id s w)

  unfoldable pub session_steps : List (SessionCall X) → SessionState X → A.World → SessionState X
  session_steps [] s w = s
  session_steps (c ∷ cs) s w = session_steps cs (session_step c s w).0 (session_step c s w).1

  step-SessionInv :
      (c : SessionCall X) (s : SessionState X) (w : A.World)
      → SessionInv m.config.environment s
      → SessionInv m.config.environment (session_step c s w).0
  unfolding session_step place_order place_oso liquidate_position cancel_order
  step-SessionInv authenticating = authenticate-Keeps A m
  step-SessionInv renewing = renew-Keeps A m
  step-SessionInv refreshing = refresh-Keeps A m
  step-SessionInv connecting = connect-Keeps A m
  step-SessionInv reconnecting = reconnect-Keeps A m
  step-SessionInv polling = poll-Keeps A m
  step-SessionInv disconnecting = disconnect-Keeps A m
  step-SessionInv (selecting routing selector) = select_account-Keeps A m routing selector
  step-SessionInv (selecting_for mode) = select_account_for_mode-Keeps A m mode
  step-SessionInv (acknowledging decision) = λ s w h. acknowledge-SessionInv decision h
  step-SessionInv (placing order) = with_context-Keeps A m (λ context. A.place_order context order)
  step-SessionInv (placing_oso order) =
      with_context-Keeps A m (λ context. A.place_oso context order)
  step-SessionInv (liquidating id tag) =
      with_context-Keeps A m (λ context. A.liquidate_position context id tag false)
  step-SessionInv (cancelling id) =
      with_context-Keeps A m (λ context. A.cancel_order context id true)

  steps-SessionInv :
      (cs : List (SessionCall X)) (s : SessionState X) (w : A.World)
      → SessionInv m.config.environment s
      → SessionInv m.config.environment (session_steps cs s w)
  unfolding session_steps
  steps-SessionInv [] s w h = h
  steps-SessionInv (c ∷ cs) s w h =
      steps-SessionInv cs (session_step c s w).0 (session_step c s w).1 (step-SessionInv c s w h)

  -- From the initial state, after any calls of the methods and whatever the broker answers: a review
  -- or a mismatch has its reason, a review has a position or working orders behind it, a
  -- synchronized session has no reason and is dated, known accounts and a selected account come
  -- with a token, and the selected account is of the manager's environment, with a routing that
  -- this environment allows.
  pub steps_from_initial-SessionInv :
      (cs : List (SessionCall X)) (w : A.World)
      → SessionInv m.config.environment (session_steps cs initial_state w)
  steps_from_initial-SessionInv cs w =
      steps-SessionInv cs initial_state w (initial_state-SessionInv m.config.environment)
