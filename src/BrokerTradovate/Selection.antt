-- ===== src/BrokerTradovate/Selection.antt =====
-- Which account the session manager of crates/broker_tradovate/src/lib.rs selects, and with which
-- account it calls the broker.
use tv_bot_core.Base.{
  ◌≡◌, inl, inr, refl, eqb_ℤ, Bool, true, some, String, List, [], ◌∷◌, ok, err, find, keep,
  Contains, show_i64, arith, Result-cases, ok_injective, sym, ap, ◌∙◌,
}
use mathlib.Core.Path.{subst}
use tv_bot_core.External.{Externals}
use tv_bot_core.CoreTypes.{BrokerAccountRouting, BrokerAccountSelection}
use tv_bot_core.BrokerTradovate.Orders.{TradovateError}
use tv_bot_core.BrokerTradovate.Session.{TradovateAccount, TradovateAccountSelector, SessionState}
use tv_bot_core.BrokerTradovate.Apis.{SessionApis, read, ◌>>=◌}
use tv_bot_core.BrokerTradovate.Preserves.{>>=-run}
use tv_bot_core.BrokerTradovate.Config.{
  TradovateSessionManager, validate_environment_for_routing, account_name_matches,
}
use tv_bot_core.BrokerTradovate.Manager.{
  choose_account, known_accounts, selection_of, select_known, select_account,
}

-- What a selector asks of an account among the active ones.
abbrev pub Suits : TradovateAccountSelector → TradovateAccount → List TradovateAccount → Type 0
Suits TradovateAccountSelector.auto account accounts = accounts ≡ account ∷ []
Suits (TradovateAccountSelector.account_id id) account accounts = eqb_ℤ account.account_id id ≡ true
Suits (TradovateAccountSelector.account_name name) account accounts =
    account_name_matches account.account_name name ≡ true

found :
    (p : TradovateAccount → Bool) (accounts : List TradovateAccount) (account : TradovateAccount)
    → find p accounts ≡ some account
    → Contains account accounts × (p account ≡ true)
found p [] account h = ground arith
found p (a ∷ accounts) account h = ground (arith, found p accounts account)

kept :
    (accounts : List TradovateAccount) (account : TradovateAccount)
    → Contains account (keep (λ a. a.active) accounts)
    → Contains account accounts × (account.active ≡ true)
kept [] account h = ground arith
kept (a ∷ accounts) account h = ground (arith, kept accounts account)

choose_account-Suits :
    (selector : TradovateAccountSelector) (routing : BrokerAccountRouting)
    (accounts : List TradovateAccount) (account : TradovateAccount)
    → choose_account selector routing accounts ≡ ok account
    → Contains account accounts × Suits selector account accounts
unfolding choose_account
choose_account-Suits TradovateAccountSelector.auto routing accounts account h = ground arith
choose_account-Suits (TradovateAccountSelector.account_id id) routing accounts account h =
    ground (arith, found (λ a. eqb_ℤ a.account_id id) accounts account)
choose_account-Suits (TradovateAccountSelector.account_name name) routing accounts account h =
    ground (arith, found (λ a. account_name_matches a.account_name name) accounts account)

-- The account behind a selection, among the accounts that the session knows.
pub record IsChosen (selector : TradovateAccountSelector) (accounts : List TradovateAccount)
    (account_id account_name : String) : Type 0 where
  pub account : TradovateAccount
  pub known : Contains account accounts
  pub active : account.active ≡ true
  pub suits : Suits selector account (keep (λ a. a.active) accounts)
  pub id_shown : account_id ≡ show_i64 account.account_id
  pub name_copied : account_name ≡ account.account_name

module _ {X : Externals} (A : SessionApis X) (m : TradovateSessionManager X) where
  -- The selection that a state carries, and where it comes from.
  pub record IsSelected (routing : BrokerAccountRouting) (selector : TradovateAccountSelector)
      (selection : BrokerAccountSelection X) (s : SessionState X) : Type 0 where
    pub stored : s.selected_account ≡ some selection
    pub routing_kept : selection.routing ≡ routing
    pub environment_kept : selection.environment ≡ m.config.environment
    pub chosen : IsChosen selector s.available_accounts selection.account_id selection.account_name

  select_known_run :
      (routing : BrokerAccountRouting) (selector : TradovateAccountSelector) (s : SessionState X)
      (w : A.World) (account : TradovateAccount)
      → choose_account selector routing (keep (λ a. a.active) s.available_accounts) ≡ ok account
      → select_known A m routing selector s w ≡ (
        ok (selection_of m routing account (A.now w).0),
        record s { selected_account = some (selection_of m routing account (A.now w).0) },
        (A.now w).1,
      )
  unfolding select_known
  select_known_run routing selector s w account e = rw e refl

  selection_of-IsSelected :
      (routing : BrokerAccountRouting) (selector : TradovateAccountSelector) (s : SessionState X)
      (account : TradovateAccount) (now : X.DateTime)
      → choose_account selector routing (keep (λ a. a.active) s.available_accounts) ≡ ok account
      → IsSelected routing selector
          (selection_of m routing account now)
          (record s { selected_account = some (selection_of m routing account now) })
  selection_of-IsSelected routing selector s account now e =
      let (member, suits) =
        choose_account-Suits selector routing (keep (λ a. a.active) s.available_accounts) account
          e in
      let (known, active) = kept s.available_accounts account member in
      record {
        stored = refl;
        routing_kept = refl;
        environment_kept = refl;
        chosen = record {
          account = account;
          known = known;
          active = active;
          suits = suits;
          id_shown = refl;
          name_copied = refl;
        };
      }

  select_known_err :
      (routing : BrokerAccountRouting) (selector : TradovateAccountSelector)
      (selection : BrokerAccountSelection X) (s : SessionState X) (w : A.World) (e : TradovateError)
      → choose_account selector routing (keep (λ a. a.active) s.available_accounts) ≡ err e
      → (select_known A m routing selector s w).0 ≡ ok selection
      → ⊥
  unfolding select_known
  select_known_err routing selector selection s w e q h = ground arith

  select_known-IsSelected :
      (routing : BrokerAccountRouting) (selector : TradovateAccountSelector)
      (selection : BrokerAccountSelection X) (s : SessionState X) (w : A.World)
      → (select_known A m routing selector s w).0 ≡ ok selection
      → IsSelected routing selector selection (select_known A m routing selector s w).1
  select_known-IsSelected routing selector selection s w h =
      elim (Result-cases
        (choose_account selector routing (keep (λ a. a.active) s.available_accounts))) [
          | inl p ↦
              let run = select_known_run routing selector s w p.0 p.1 in
              subst (λ t. IsSelected routing selector selection t) (ap (λ o. o.1) (sym run))
                (subst
                  (λ c.
                    IsSelected routing selector c (record s {
                      selected_account = some (selection_of m routing p.0 (A.now w).0);
                    }))
                  (ok_injective (ap (λ o. o.0) run) h)
                  (selection_of-IsSelected routing selector s p.0 (A.now w).0 p.1))
          | inr p ↦ absurd (select_known_err routing selector selection s w p.0 p.1 h)
        ]

  -- After a selection that succeeds, the manager's environment allows the routing, and the session
  -- stores the selection: it has the routing and the manager's environment, and the id and the name
  -- of an active account that the session knows. That account is the only active one when the
  -- selector is automatic, and has the id or the name that the selector gives otherwise.
  pub select_account-IsSelected :
      (routing : BrokerAccountRouting) (selector : TradovateAccountSelector)
      (selection : BrokerAccountSelection X) (s : SessionState X) (w : A.World)
      → (select_account A m routing selector s w).0 ≡ ok selection
      → (validate_environment_for_routing m.config.environment routing ≡ ok tt)
        × IsSelected routing selector selection (select_account A m routing selector s w).1
  unfolding select_account
  select_account-IsSelected routing selector selection s w h =
      let (_, valid, e) =
        >>=-run (read (λ s. validate_environment_for_routing m.config.environment routing))
          (λ _. known_accounts A m >>= λ _. select_known A m routing selector) s w h in
      let h' = ap (λ o. o.0) (sym e) ∙ h in
      let (_, _, e') =
        >>=-run (known_accounts A m) (λ _. select_known A m routing selector) s w h' in
      let t = (known_accounts A m s w).1 in
      let w' = (known_accounts A m s w).2 in
      (
        valid,
        subst (λ o. IsSelected routing selector selection o.1) (sym (e ∙ e'))
            (select_known-IsSelected routing selector selection t w' (ap (λ o. o.0) (sym e') ∙ h')),
      )
