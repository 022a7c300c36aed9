-- ===== src/BrokerTradovate/Scripted.antt =====
-- A broker that answers from a script, and a session with it, for the tests.
use tv_bot_core.Base.{ℕ, suc, pos, true, false, none, some, [], ◌∷◌, ok, err}
use tv_bot_core.CoreTypes.{BrokerEnvironment, BrokerAccountRouting}
use tv_bot_core.Sample.{cents, holding}
use tv_bot_core.BrokerTradovate.Orders.{TradovateError}
use tv_bot_core.BrokerTradovate.Session.{
  TradovateAccount, TradovateAccessToken, TradovateSyncSnapshot, TradovateSyncEvent, SessionState,
  initial_state,
}
use tv_bot_core.BrokerTradovate.Apis.{SessionApis}
use tv_bot_core.BrokerTradovate.Config.{TradovateSessionManager}

abbrev pub token : TradovateAccessToken cents
token = record {
  access_token = "access";
  expiration_time = pos 10000;
  issued_at = pos 0;
  user_id = some (pos 7);
  person_id = none;
  market_data_access = none;
}

abbrev pub paper_account : TradovateAccount
paper_account = record {
  account_id = pos 31;
  account_name = "paper";
  nickname = none;
  active = true;
}

abbrev pub closed_account : TradovateAccount
closed_account = record {
  account_id = pos 30;
  account_name = "closed";
  nickname = none;
  active = false;
}

-- An open position of two contracts, and no mismatch.
abbrev pub exposed : TradovateSyncSnapshot cents
exposed = record {
  occurred_at = pos 100;
  positions = holding (pos 2) ∷ [];
  working_orders = [];
  fills = [];
  account_snapshot = none;
  mismatch_reason = none;
  detail = "user sync";
}

-- The world is the time in seconds, which every call moves on by one.
abbrev pub broker : SessionApis cents
broker = record {
  World = ℕ;
  now = λ w. (pos w, suc w);
  request_access_token = λ _ w. (ok token, suc w);
  renew_access_token = λ _ w. (ok token, suc w);
  list_accounts = λ _ w. (ok (closed_account ∷ paper_account ∷ []), suc w);
  connect = λ _ w. (ok tt, suc w);
  request_user_sync = λ _ w. (ok exposed, suc w);
  next_event = λ w. (ok (some (TradovateSyncEvent.sync_snapshot exposed)), suc w);
  disconnect = λ w. (ok tt, suc w);
  place_order = λ _ _ w. (ok (pos 9001), suc w);
  place_oso = λ _ _ w. (err (TradovateError.execution_transport "down"), suc w);
  liquidate_position = λ _ _ _ _ w. (ok (pos 9002), suc w);
  cancel_order = λ _ _ _ w. (ok (pos 9003), suc w);
}

abbrev pub manager : TradovateSessionManager cents
manager = record {
  config = record {
    environment = BrokerEnvironment.demo;
    http_base_url = "https://demo";
    websocket_url = "wss://demo";
    renew_before_expiry = pos 900;
    heartbeat_stale_after = pos 30;
    sync_stale_after = pos 15;
  };
  credentials = record {
    username = "u";
    password = "p";
    cid = "c";
    sec = "s";
    app_id = "a";
    app_version = "1";
    device_id = none;
  };
  routing_preferences = record { paper_account_name = some " PAPER"; live_account_name = none };
}

abbrev pub start : SessionState cents
start = initial_state

-- A session with a token and an account, at time 100.
abbrev pub selected : SessionState cents
selected = record start {
  access_token = some token;
  available_accounts = closed_account ∷ paper_account ∷ [];
  selected_account = some (record {
    provider = "tradovate";
    account_id = "31";
    account_name = "paper";
    routing = BrokerAccountRouting.paper;
    environment = BrokerEnvironment.demo;
    selected_at = pos 90;
  });
}
