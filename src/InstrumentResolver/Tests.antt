-- ===== src/InstrumentResolver/Tests.antt =====
-- Runs of the resolver on a chain of gold contracts.
use tv_bot_core.Base.{is_whitespace}
use tv_bot_core.Base.{ℤ, pos, Option, none, some, List, [], ◌∷◌, ◌≡◌, ok, err, refl}
use tv_bot_core.CoreTypes.{ContractMode}
use tv_bot_core.Sample.{cents}
use tv_bot_core.InstrumentResolver.{
  ContractMonth, ContractListing, FrontMonthSelectionBasis, InstrumentResolverError,
  select_front_month, resolve_market,
}
use tv_bot_core.InstrumentResolver.FrontMonth.{IsFrontMonth, select_front_month-first}

abbrev listed : ContractMonth → Option ℤ → ContractListing cents
listed month notice = record {
  month = month;
  databento_symbol = "GC";
  tradovate_symbol = "GC";
  first_notice_date = notice;
  last_trade_date = none;
}

abbrev june : ContractListing cents
june = listed (record { year = pos 2026; month = 6 }) (some (pos 150))

abbrev august : ContractListing cents
august = listed (record { year = pos 2026; month = 8 }) (some (pos 210))

abbrev april : ContractListing cents
april = listed (record { year = pos 2026; month = 4 }) (some (pos 90))

abbrev gold_chain : List (ContractListing cents)
gold_chain = august ∷ june ∷ april ∷ []

june_is_front :
    select_front_month gold_chain (pos 100) "gold"
    ≡ ok (june, FrontMonthSelectionBasis.first_notice_date)
unfolding select_front_month
june_is_front = refl

all_rolled_over :
    select_front_month gold_chain (pos 210) "gold"
    ≡ err (InstrumentResolverError.no_active_contract "gold" (pos 210))
unfolding select_front_month
all_rolled_over = refl

duplicate_months :
    resolve_market (λ _. ok (june ∷ june ∷ [])) (pos 100) "GC" ContractMode.front_month_auto
    ≡ err (InstrumentResolverError.duplicate_contract_month "gold")
unfolding resolve_market is_whitespace
duplicate_months = refl

unknown_market :
    resolve_market (λ _. ok gold_chain) (pos 100) "wheat" ContractMode.front_month_auto
    ≡ err (InstrumentResolverError.unsupported_market "wheat")
unfolding resolve_market is_whitespace
unknown_market = refl

select_front_month-first_example :
    IsFrontMonth (pos 100) "gold" june FrontMonthSelectionBasis.first_notice_date gold_chain
select_front_month-first_example =
    (select_front_month-first (pos 100) "gold" gold_chain).0 june
      FrontMonthSelectionBasis.first_notice_date june_is_front
