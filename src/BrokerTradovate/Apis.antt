-- ===== src/BrokerTradovate/Apis.antt =====
-- The traits that the session manager of crates/broker_tradovate/src/lib.rs is generic over, and
-- its methods as steps on the session's state and the world behind the traits.
use tv_bot_core.Base.{ℤ, Bool, Option, List, String, Result, ok, err}
use tv_bot_core.External.{Externals}
use tv_bot_core.BrokerTradovate.Orders.{
  TradovateError, TradovateOrderPlacement, TradovateOsoOrderPlacement,
}
use tv_bot_core.BrokerTradovate.Session.{
  TradovateAccount, TradovateAccessToken, TradovateSyncSnapshot, TradovateSyncEvent, SessionState,
  TradovateAuthRequest, TradovateRenewAccessTokenRequest, TradovateAccountListRequest,
  TradovateSyncConnectRequest, TradovateUserSyncRequest, TradovateExecutionContext,
}

-- The result of `placeOSO`.
pub record TradovatePlaceOsoResult : Type 0 where
  pub order_id : ℤ
  pub oso1_id : Option ℤ
  pub oso2_id : Option ℤ

-- `TradovateAuthApi`, `TradovateAccountApi`, `TradovateSyncApi`, `TradovateExecutionApi` and
-- `Clock`, which act on one world: the broker, the network and the time.
pub record SessionApis (X : Externals) : Type 1 where
  pub World : Type 0
  pub now : World → X.DateTime × World
  pub request_access_token :
      TradovateAuthRequest X → World → Result TradovateError (TradovateAccessToken X) × World
  pub renew_access_token :
      TradovateRenewAccessTokenRequest X
      → World
      → Result TradovateError (TradovateAccessToken X) × World
  pub list_accounts :
      TradovateAccountListRequest X → World → Result TradovateError (List TradovateAccount) × World
  pub connect : TradovateSyncConnectRequest X → World → Result TradovateError (Unit {0}) × World
  pub request_user_sync :
      TradovateUserSyncRequest X → World → Result TradovateError (TradovateSyncSnapshot X) × World
  pub next_event : World → Result TradovateError (Option (TradovateSyncEvent X)) × World
  pub disconnect : World → Result TradovateError (Unit {0}) × World
  pub place_order :
      TradovateExecutionContext X
      → TradovateOrderPlacement X
      → World
      → Result TradovateError ℤ × World
  pub place_oso :
      TradovateExecutionContext X
      → TradovateOsoOrderPlacement X
      → World
      → Result TradovateError TradovatePlaceOsoResult × World
  pub liquidate_position :
      TradovateExecutionContext X
      → ℤ
      → Option String
      → Bool
      → World
      → Result TradovateError ℤ × World
  pub cancel_order :
      TradovateExecutionContext X → ℤ → Bool → World → Result TradovateError ℤ × World

-- What a call leaves: its result, the state and the world.
abbrev pub Outcome : Type 0 → Type 0 → Type 0 → Type 0
Outcome S W B = Result TradovateError B × S × W

abbrev pub Stateful : Type 0 → Type 0 → Type 0 → Type 0
Stateful S W B = S → W → Outcome S W B

module _ {S W B : Type 0} where
  abbrev pub pure : B → Stateful S W B
  pure b s w = (ok b, s, w)

  abbrev continue : {C : Type 0} → Outcome S W B → (B → Stateful S W C) → Outcome S W C
  continue (ok b, s, w) f = f b s w
  continue (err e, s, w) f = (err e, s, w)

  -- `first?` and then the rest, which has the value; an error keeps the state so far.
  infixl 5 ◌>>=◌
  abbrev pub ◌>>=◌ : {C : Type 0} → Stateful S W B → (B → Stateful S W C) → Stateful S W C
  (first >>= f) s w = continue (first s w) f

  -- A value of the state, or an error.
  abbrev pub read : (S → Result TradovateError B) → Stateful S W B
  read f s w = (f s, s, w)

  -- A call of a trait's method.
  abbrev pub call : (W → Result TradovateError B × W) → Stateful S W B
  call f s w = ((f w).0, s, (f w).1)

  abbrev settle : (S → S) → Outcome S W B → Outcome S W B
  settle f (ok b, s, w) = (ok b, s, w)
  settle f (err e, s, w) = (err e, f s, w)

  -- The assignments of a call's error branch.
  abbrev pub failing : (S → S) → Stateful S W B → Stateful S W B
  failing f method s w = settle f (method s w)

module _ {S W : Type 0} where
  infixl 5 ◌>>◌
  abbrev pub ◌>>◌ : {C : Type 0} → Stateful S W (Unit {0}) → Stateful S W C → Stateful S W C
  first >> rest = first >>= λ _. rest

  -- An assignment to fields of `self.state`.
  abbrev pub update : (S → S) → Stateful S W (Unit {0})
  update f s w = (ok tt, f s, w)

  -- `self.clock.now()`
  abbrev pub reading : {T : Type 0} → (W → T × W) → Stateful S W T
  reading now s w = (ok (now w).0, s, (now w).1)

-- A method of the session manager.
abbrev pub Method : {X : Externals} → SessionApis X → Type 0 → Type 0
Method {X} A B = Stateful (SessionState X) A.World B
